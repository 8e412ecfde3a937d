-- ===== src/Comms/Socket/RoundTrip.antt =====
-- `Socket::receive` reads back what `Socket::send` writes.
use mathlib.Core.List.{map-append, reverse-reverse}
use stateline.Prelude.{
  ℕ, zero, suc, ◌+◌, ◌≤◌, ◌≡◌, refl, ap, sym, ◌∙◌, ◌≢◌, Bool, true, false, List, [], ◌∷◌, ◌++◌, map,
  reverse, append_assoc, append-nil, arith, All, All-append, int_max, pos, Result, ok, ◌>>=◌, wrap,
  ◌%◌, uint_mod,
}
use stateline.Std.Key.{Str}
use stateline.Std.Decimal.{to_string, stoi}
use stateline.Std.Decimal.RoundTrip.{stoi-to_string}
use stateline.Comms.Messages.{Message, code, subject_of}
use stateline.Comms.Socket.{
  Part, send_string_part, send_body, send_parts, read_address, read_frames, next_part, receive,
}

abbrev address_parts : List Str → List Part
address_parts = map (λ a. send_string_part a)

abbrev AllFilled : List Str → Type 0
AllFilled = All (λ a. a ≢ [])

-- A message that survives the wire: no part of its address is empty (an empty part is the
-- delimiter), and its subject is one that the cast of its number gives and that `stoi` can read.
pub record IsSendable (m : Message) : Type 0 where
  pub filled : AllFilled m.address
  pub subject_fits : code m.subject ≤ int_max
  pub subject_cast : subject_of (code m.subject) ≡ m.subject

AllFilled-reverse : (xs : List Str) → AllFilled xs → AllFilled (reverse xs)
AllFilled-reverse [] h = tt
AllFilled-reverse (x ∷ xs) h =
    rw (mathlib.Core.List.reverse-cons x xs)
      (All-append (λ a. a ≢ []) (reverse xs) (x ∷ []) (AllFilled-reverse xs h.1) (h.0, tt))

read_address-parts :
    (acc addr : List Str) (ps : List Part)
    → AllFilled addr
    → read_address acc (address_parts addr ++ send_string_part [] ∷ ps) ≡ ok (acc ++ addr, ps)
unfolding read_address
read_address-parts acc [] ps h = rw append-nil
read_address-parts acc ([] ∷ addr) ps h = absurd (h.0 refl)
read_address-parts acc ((c ∷ a) ∷ addr) ps h =
    read_address-parts (acc ++ (c ∷ a) ∷ []) addr ps h.1
    ∙ ap (λ x. ok (x, ps)) (append_assoc acc ((c ∷ a) ∷ []) addr)

read_frames-send_body :
    (acc : List Str) (d : Str) (ds : List Str) (rest : List Part)
    → read_frames acc true (send_body d ds ++ rest) ≡ ok (acc ++ d ∷ ds, rest)
unfolding read_frames send_body
read_frames-send_body acc d [] rest = refl
read_frames-send_body acc d (e ∷ ds) rest =
    read_frames-send_body (acc ++ d ∷ []) e ds rest
    ∙ ap (λ x. ok (x, rest)) (append_assoc acc (d ∷ []) (e ∷ ds))

-- What is read after the delimiter.
abbrev read_body : List Str → List Part → Result (Message × List Part)
read_body address ps = do
  (subject_part, after_subject) ← next_part ps
  n ← stoi subject_part.text
  (frames, rest) ← read_frames [] subject_part.more after_subject
  ok (
    record {
      address = reverse address;
      subject = subject_of (stateline.Prelude.to_uint n);
      frames = frames;
    },
    rest,
  )

read_body-send_body :
    (m : Message) (rest : List Part)
    → IsSendable m
    → read_body (reverse m.address) (send_body (to_string (code m.subject)) m.frames ++ rest)
      ≡ ok (m, rest)
unfolding next_part send_body read_frames
read_body-send_body m rest h = body m.frames
  where
    number : stoi (to_string (code m.subject)) ≡ ok (pos (code m.subject))
    number = stoi-to_string (code m.subject) h.subject_fits

    cast : subject_of (code m.subject % uint_mod) ≡ m.subject
    cast =
        let small : code m.subject % uint_mod ≡ code m.subject = omega (arith, h.subject_fits) in
        rw small h.subject_cast

    body :
        (ds : List Str)
        → read_body (reverse m.address) (send_body (to_string (code m.subject)) ds ++ rest)
          ≡ ok (record m { frames = ds }, rest)
    body [] = rw number (rw (cast, reverse-reverse))
    body (d ∷ ds) = rw number (rw (read_frames-send_body [] d ds rest) (rw (cast, reverse-reverse)))

-- A message that can be sent, whose address has no empty part and whose subject is one of the enum's
-- or a number from 6 to 2 ^ 31 - 1, is received again from its parts, and the parts after it stay.
pub receive-send_parts :
    (m : Message) (rest : List Part) → IsSendable m → receive (send_parts m ++ rest) ≡ ok (m, rest)
unfolding receive send_parts
receive-send_parts m rest h =
    let body = send_body (to_string (code m.subject)) m.frames in
    rw (append_assoc (address_parts (reverse m.address)) (send_string_part [] ∷ body) rest) (
      rw
        (read_address-parts [] (reverse m.address) (body ++ rest)
          (AllFilled-reverse m.address h.filled))
        (read_body-send_body m rest h))
