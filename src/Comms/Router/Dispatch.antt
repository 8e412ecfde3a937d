-- ===== src/Comms/Router/Dispatch.antt =====
-- Which callback a message reaches.
use stateline.Prelude.{ℕ, suc, ◌<◌, ◌≡◌, some, arith, ◌==◌, if◌then◌else◌, ok, get_elem?-set}
use stateline.Comms.Messages.{Message, Subject, hello, unnamed, subject_size, code}
use stateline.Comms.Router.{Callback, Router, index, bind, dispatch}

-- After `bind` the bound callback serves the messages of its slot, and every other message is
-- served as before.
pub dispatch-bind :
    {S : Type 0} (i j : ℕ) (t : Subject) (f : Callback S) (r r' : Router S) (m : Message) (s : S)
    → bind i t f r ≡ ok r'
    → dispatch r' j m s ≡ (if index i t == index j m.subject then f m s else dispatch r j m s)
unfolding bind dispatch
dispatch-bind i j t f r r' m s e =
    ground (arith, get_elem?-set r.callbacks (index i t) (index j m.subject) (some f))

-- Slots of named subjects on different sockets, or of different subjects, are different.
pub index_injective :
    (i j : ℕ) (s t : Subject)
    → i < 0x10000000
    → j < 0x10000000
    → code s < subject_size
    → code t < subject_size
    → index i s ≡ index j t
    → (i ≡ j) × (code s ≡ code t)
unfolding index
index_injective i j s t hi hj hs ht e = omega arith

-- A subject number that the enum does not name falls into the slots of the next socket.
pub index-unnamed : (i : ℕ) → index i (unnamed 6) ≡ index (suc i) hello
unfolding index
index-unnamed i = omega arith
