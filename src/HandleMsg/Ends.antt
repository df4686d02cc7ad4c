-- ===== src/HandleMsg/Ends.antt =====
-- How a task of the server ends, with rules for its parts. An end that is an exception or undefined
-- behaviour has sent nothing.
use ifellsofuckinggood.Prelude.{
  ◌≡◌, Bytes, Option, none, some, List, arith, Outcome, returned, thrown, undefined,
}
use ifellsofuckinggood.TransObj.{TransObj, set_msg}
use ifellsofuckinggood.HandleMsg.Server.{Server, M, continue, call, lift, text_of}

module _ {W : Type 0} where
  -- `b` is what the queue held before.
  abbrev pub Ends :
      {A : Type 0} → List TransObj → (A → Server W → Type 0) → Outcome A × Server W → Type 0
  Ends b P (returned a, s) = P a s
  Ends b P (thrown, s) = s.buff ≡ b
  Ends b P (undefined, s) = s.buff ≡ b

  pub Ends-bind :
      {A B : Type 0} (b : List TransObj) (P : B → Server W → Type 0) (f : A → M W B)
      (m : Outcome A × Server W)
      → Ends b (λ a s. s.buff ≡ b) m
      → ((a : A) (s : Server W) → s.buff ≡ b → Ends b P (f a s))
      → Ends b P (continue m f)
  Ends-bind b P f (returned a, s) h k = k a s h
  Ends-bind b P f (thrown, s) h k = h
  Ends-bind b P f (undefined, s) h k = h

  -- A call of a service sends nothing.
  pub Ends-call :
      {A : Type 0} (b : List TransObj) (r : Outcome A × W) (s : Server W)
      → s.buff ≡ b
      → Ends b (λ a s'. s'.buff ≡ b) (call (λ w. r) s)
  Ends-call b (returned a, w) s h = h
  Ends-call b (thrown, w) s h = h
  Ends-call b (undefined, w) s h = h

  pub Ends-lift :
      {A : Type 0} (b : List TransObj) (r : Outcome A) (s : Server W)
      → s.buff ≡ b
      → Ends b (λ a s'. s'.buff ≡ b) (lift r s)
  Ends-lift b (returned a) s h = h
  Ends-lift b thrown s h = h
  Ends-lift b undefined s h = h

  pub Ends-text :
      (b : List TransObj) (t : Option Bytes) (s : Server W)
      → s.buff ≡ b
      → Ends b (λ a s'. s'.buff ≡ b) (text_of t s)
  Ends-text b none s h = h
  Ends-text b (some t) s h = h

-- setMsg changes neither the type nor the addresses.
pub set_msg-keeps :
    (t : Bytes) (o : TransObj)
    → ((set_msg t o).1.msg_type ≡ o.msg_type)
      × ((set_msg t o).1.fd ≡ o.fd)
      × ((set_msg t o).1.id ≡ o.id)
      × ((set_msg t o).1.recver_id ≡ o.recver_id)
unfolding set_msg
set_msg-keeps t o = ground arith
