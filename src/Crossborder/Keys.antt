-- ===== src/Crossborder/Keys.antt =====
-- The keys of the idempotency map: a prefix for each kind of request keeps the four apart.
use Prim.Native.Char.{Char, code}
use text.Mathlib.TextLemmas.{cons-append, head-eq_of_cons-eq, tail-eq_of_cons-eq}
use ecommerce_ops_agent.Base.{◌≡◌, sym, ap, ◌∙◌, ◌≢◌, String, ◌<>◌, arith}

open_first :
    {c d : Char} (a b s t : String)
    → String.◌∷◌ c a <> s ≡ String.◌∷◌ d b <> t
    → String.◌∷◌ c (a <> s) ≡ String.◌∷◌ d (b <> t)
open_first {c} {d} a b s t e = sym (cons-append c a s) ∙ e ∙ cons-append d b t

first_apart :
    (c d : Char) (a b s t : String) → code c ≢ code d → String.◌∷◌ c a <> s ≢ String.◌∷◌ d b <> t
first_apart c d a b s t h e = h (ap code (head-eq_of_cons-eq (open_first a b s t e)))

first_same :
    (c : Char) (a b s t : String) → String.◌∷◌ c a <> s ≡ String.◌∷◌ c b <> t → a <> s ≡ b <> t
first_same c a b s t e = tail-eq_of_cons-eq (open_first a b s t e)

pub transfer_not_change : (k j : String) → "transfer:" <> k ≢ "fulfillment-warehouse:" <> j
transfer_not_change k j = first_apart "t" "f" "ransfer:" "ulfillment-warehouse:" k j (omega arith)

pub transfer_not_refund : (k j : String) → "transfer:" <> k ≢ "refund:" <> j
transfer_not_refund k j = first_apart "t" "r" "ransfer:" "efund:" k j (omega arith)

pub transfer_not_case : (k j : String) → "transfer:" <> k ≢ "reconciliation:" <> j
transfer_not_case k j = first_apart "t" "r" "ransfer:" "econciliation:" k j (omega arith)

pub change_not_refund : (k j : String) → "fulfillment-warehouse:" <> k ≢ "refund:" <> j
change_not_refund k j = first_apart "f" "r" "ulfillment-warehouse:" "efund:" k j (omega arith)

pub change_not_case : (k j : String) → "fulfillment-warehouse:" <> k ≢ "reconciliation:" <> j
change_not_case k j = first_apart "f" "r" "ulfillment-warehouse:" "econciliation:" k j (omega arith)

pub refund_not_case : (k j : String) → "refund:" <> k ≢ "reconciliation:" <> j
refund_not_case k j e =
    first_apart "f" "c" "und:" "onciliation:" k j (omega arith)
      (first_same "e" "fund:" "conciliation:" k j (first_same "r" "efund:" "econciliation:" k j e))
