-- ===== src/Base/Effect.antt =====
-- Steps of an operation on a state, any of which may fail: a failure keeps what has changed so far.
use mathlib.Core.Bool.{Bool, true, false}
use mathlib.Core.Option.{Option, none, some}

abbrev pub Op : Type 0 → Type 0 → Type 0
Op S A = S → S × Option A

-- The rest of an operation after a step that did not fail.
abbrev pub and_then : {S A B : Type 0} → S × Option A → (A → Op S B) → S × Option B
and_then (t, none) next = (t, none)
and_then (t, some a) next = next a t

infixl 5 ◌>>=◌ ◌>>◌
abbrev pub ◌>>=◌ : {S A B : Type 0} → Op S A → (A → Op S B) → Op S B
◌>>=◌ m next t = and_then (m t) next

abbrev pub ◌>>◌ : {S B : Type 0} → Op S (Unit {0}) → Op S B → Op S B
◌>>◌ m next t = and_then (m t) (λ _. next)

abbrev pub return : {S A : Type 0} → A → Op S A
return a t = (t, some a)

abbrev pub fail : {S A : Type 0} → Op S A
fail t = (t, none)

-- What a failed step is followed by before the operation returns -1.
abbrev pub after_failure : {S A : Type 0} → S × Option A → Op S (Unit {0}) → S × Option A
after_failure (t, none) undo = ((undo t).0, none)
after_failure (t, some a) undo = (t, some a)

abbrev pub otherwise : {S A : Type 0} → Op S A → Op S (Unit {0}) → Op S A
otherwise m undo t = after_failure (m t) undo

-- The result of a step as a value: whether it returned 0.
abbrev pub outcome : {S : Type 0} → S × Option (Unit {0}) → S × Option Bool
outcome (t, none) = (t, some false)
outcome (t, some _) = (t, some true)

abbrev pub attempt : {S : Type 0} → Op S (Unit {0}) → Op S Bool
attempt m t = outcome (m t)

abbrev pub gets : {S A : Type 0} → (S → A) → Op S A
gets f t = (t, some (f t))

abbrev pub modifies : {S : Type 0} → (S → S) → Op S (Unit {0})
modifies f t = (f t, some tt)

abbrev pub succeeded : Bool → Option (Unit {0})
succeeded true = some tt
succeeded false = none

-- A step whose failure the operation goes on from.
abbrev pub noted : {S A : Type 0} → S × Option A → S × Option (Option A)
noted (t, result) = (t, some result)

abbrev pub optionally : {S A : Type 0} → Op S A → Op S (Option A)
optionally m t = noted (m t)
