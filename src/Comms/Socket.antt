-- ===== src/Comms/Socket.antt =====
-- comms/socket.cpp. A socket reads a stream of parts, each with the flag that ZMQ_RCVMORE reports
-- after it. What ZeroMQ does with the parts between the two ends is not modelled.
pub mod RoundTrip
use stateline.Prelude.{
  ℕ, Bool, true, false, Option, none, some, List, [], ◌∷◌, ◌++◌, map, reverse, if◌then◌else◌,
  Result, ok, err, ◌>>=◌, Fault, blocked, zmq_error, to_uint,
}
use stateline.Std.Key.{Str}
use stateline.Std.Decimal.{to_string, stoi}
use stateline.Comms.Messages.{Message, Subject, code, subject_of}

pub record Part : Type 0 where
  pub text : Str
  pub more : Bool

-- `sendStringPart` and `sendString`.
abbrev send_string_part : Str → Part
send_string_part s = record { text = s; more = true }

abbrev send_string : Str → Part
send_string s = record { text = s; more = false }

-- The subject and the data frames: all but the last of these are sent with ZMQ_SNDMORE.
send_body : Str → List Str → List Part
send_body s [] = send_string s ∷ []
send_body s (d ∷ ds) = send_string_part s ∷ send_body d ds

-- The parts that `Socket::send` writes.
unfoldable pub send_parts : Message → List Part
unfolding send_body code
send_parts m =
    map (λ a. send_string_part a) (reverse m.address)
    ++ send_string_part [] ∷ send_body (to_string (code m.subject)) m.frames

-- `Socket::send` with a fallback: `accepted` is whether ZeroMQ took the parts.
unfoldable pub send {ℓ} : {S : Type ℓ} → Bool → S → Option (Message → Result S) → Message → Result S
send true sent fallback m = ok sent
send false sent (some f) m = f m
send false sent none m = err zmq_error

-- `Socket::receive`, loop by loop. `read_address` stops after the delimiter.
read_address : List Str → List Part → Result (List Str × List Part)
read_address address [] = err blocked
read_address address (p ∷ ps) =
    let longer = read_address (address ++ p.text ∷ []) ps in
    elim p.text [ [] ↦ ok (address, ps) | c ∷ s ↦ longer ]

read_frames : List Str → Bool → List Part → Result (List Str × List Part)
read_frames frames false ps = ok (frames, ps)
read_frames frames true [] = err blocked
read_frames frames true (p ∷ ps) = read_frames (frames ++ p.text ∷ []) p.more ps

next_part : List Part → Result (Part × List Part)
next_part [] = err blocked
next_part (p ∷ ps) = ok (p, ps)

unfoldable pub receive : List Part → Result (Message × List Part)
unfolding read_address read_frames next_part
receive ps = do
  (address, after_delimiter) ← read_address [] ps
  (subject_part, after_subject) ← next_part after_delimiter
  n ← stoi subject_part.text
  (frames, rest) ← read_frames [] subject_part.more after_subject
  ok (record { address = reverse address; subject = subject_of (to_uint n); frames = frames }, rest)
