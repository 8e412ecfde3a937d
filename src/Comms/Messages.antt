-- ===== src/Comms/Messages.antt =====
-- comms/messages.hpp and comms/messages.cpp. The field `data` of a message is called `frames`.
use Prim.Native.Char.{code as char_code}
use Prim.Native.String.{String}
use stateline.Prelude.{ℕ, suc, zero, Bool, true, false, ◌&&◌, List, [], ◌∷◌, ◌++◌, reverse, ◌==◌}
use stateline.Std.Key.{Str, str_eq}

-- The bytes of an ASCII literal.
abbrev pub bytes : String → Str
bytes String.[] = []
bytes (String.◌∷◌ c s) = char_code c ∷ bytes s

abbrev pub Address : Type 0
Address = List Str

-- `unnamed n` is a value of the enum that no enumerator names; `(Subject)` casts can make one.
pub data Subject : Type 0 where
  hello heartbeat request job result goodbye : Subject
  unnamed : ℕ → Subject

-- `Subject::Size`.
abbrev pub subject_size : ℕ
subject_size = 6

-- `(uint)s`.
unfoldable pub code : Subject → ℕ
code hello = 0
code heartbeat = 1
code request = 2
code job = 3
code result = 4
code goodbye = 5
code (unnamed n) = n

-- `(Subject)n`.
unfoldable pub subject_of : ℕ → Subject
subject_of zero = hello
subject_of (suc zero) = heartbeat
subject_of (suc (suc zero)) = request
subject_of (suc (suc (suc zero))) = job
subject_of (suc (suc (suc (suc zero)))) = result
subject_of (suc (suc (suc (suc (suc zero))))) = goodbye
subject_of (suc (suc (suc (suc (suc (suc n)))))) = unnamed (suc (suc (suc (suc (suc (suc n))))))

pub record Message : Type 0 where
  pub address : Address
  pub subject : Subject
  pub frames : List Str

list_eq : List Str → List Str → Bool
list_eq [] [] = true
list_eq [] (y ∷ ys) = false
list_eq (x ∷ xs) [] = false
list_eq (x ∷ xs) (y ∷ ys) = str_eq x y && list_eq xs ys

-- `Message::operator==`.
unfoldable pub message_eq : Message → Message → Bool
unfolding list_eq code
message_eq m n =
    list_eq m.address n.address && code m.subject == code n.subject && list_eq m.frames n.frames

unfoldable pub subject_string : Subject → Str
subject_string hello = bytes "HELLO"
subject_string heartbeat = bytes "HEARTBEAT"
subject_string request = bytes "REQUEST"
subject_string job = bytes "JOB"
subject_string result = bytes "RESULT"
subject_string goodbye = bytes "GOODBYE"
subject_string (unnamed n) = bytes "UNKNOWN"

append_each : Str → List Str → Str
append_each text [] = text
append_each text (addr ∷ others) = append_each (text ++ b':' ∷ addr) others

-- The loop over the reversed address, after its first entry.
concatenate : List Str → Str
unfolding append_each
concatenate [] = []
concatenate (last ∷ others) = append_each last others

unfoldable pub address_as_string : Address → Str
unfolding concatenate
address_as_string address = concatenate (reverse address)
