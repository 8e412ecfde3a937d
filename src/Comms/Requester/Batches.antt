-- ===== src/Comms/Requester/Batches.antt =====
-- A requester knows the batch that an answer belongs to.
use stateline.Prelude.{ℕ, ◌<◌, ◌≡◌, List, [], ◌∷◌, arith, uint_mod, wrap, Result, ok}
use stateline.Std.Key.{Str}
use stateline.Std.Decimal.{to_string}
use stateline.Std.Decimal.RoundTrip.{stoul-to_string}
use stateline.Comms.Messages.{Message}
use stateline.Comms.Delegator.State.{Request, frame}
use stateline.Comms.Delegator.Answering.{answer}
use stateline.Comms.Minion.{read_sample}
use stateline.Comms.Requester.{submit, retrieve}

submit-address :
    {Real : Type 0} (print : Real → Str) (id : ℕ) (job_types : List ℕ) (values : List Real)
    (m : Message)
    → submit print id job_types values ≡ ok m
    → m.address ≡ to_string id ∷ []
unfolding submit
submit-address print id job_types values m e = ground arith

-- When the delegator answers a request with the address of the message that `submit` sent, and the
-- results are readable, `retrieve` returns the id of the batch and the results, in order.
pub retrieve-answer :
    {Real : Type 0} (print : Real → Str) (stod : Str → Result Real) (id : ℕ) (job_types : List ℕ)
    (values results : List Real) (m : Message) (r : Request)
    → id < uint_mod
    → submit print id job_types values ≡ ok m
    → r.address ≡ m.address
    → read_sample stod r.results ≡ ok results
    → retrieve stod (answer r) ≡ ok (id, results)
unfolding retrieve frame
retrieve-answer print stod id job_types values results m r small e a f =
    let fits : wrap id ≡ id = omega (arith, small) in
    rw a (
      rw (submit-address print id job_types values m e)
        (rw (stoul-to_string id (omega (arith, small))) (rw f (rw fits))))
