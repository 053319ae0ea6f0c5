-- ===== src/Approval/Store/Listing.antt =====
-- The lists that the worker and the pages read.
use ecommerce_ops_agent.Base.{
  ℕ, zero, suc, ◌≡◌, ◌↔◌, String, List, All, some, true, ok, arith, string_eq, keep,
}
use ecommerce_ops_agent.Base.Dict.{lookup, values}
use ecommerce_ops_agent.Base.Int.{ℤ, pos, negsuc}
use ecommerce_ops_agent.Base.Sort.{
  by, IsSortedBy, sort-IsSortedBy, sort-All, keep-All, take-All, take-IsSortedBy,
}
use ecommerce_ops_agent.Approval.Record.{Approval}
use ecommerce_ops_agent.Approval.Store.{
  Store, created, is_ready, at_most, list_ready_resumes, begin_execution, claim, refused,
}

-- An approval is ready for the worker's sweep exactly when a claim of it at that time, made for its
-- own conversation, succeeds.
pub ready_iff_claimed :
    (now : ℕ) (token id : String) (s : Store) (a : Approval)
    → lookup id s.approvals ≡ some a
    → (is_ready now a ≡ true) ↔ ((begin_execution now token id a.conversation_id s).1 ≡ ok token)
unfolding begin_execution claim refused
ready_iff_claimed now token id s a found = (λ h. ground arith, λ h. ground arith)

at_most-All {ℓ} :
    (P : Approval → Type ℓ) (limit : ℤ) (out : List Approval)
    → All P out
    → All P (at_most limit out)
at_most-All P (pos zero) out h = h
at_most-All P (pos (suc n)) out h = take-All P (suc n) out h
at_most-All P (negsuc n) out h = h

at_most-IsSortedBy :
    (limit : ℤ) (out : List Approval)
    → IsSortedBy created out
    → IsSortedBy created (at_most limit out)
at_most-IsSortedBy (pos zero) out h = h
at_most-IsSortedBy (pos (suc n)) out h = take-IsSortedBy created (suc n) out h
at_most-IsSortedBy (negsuc n) out h = h

-- The sweep's list holds only approvals that are ready, the oldest first.
pub list_ready_resumes_lem :
    (now : ℕ) (limit : ℤ) (s : Store)
    → All (λ a. is_ready now a ≡ true) (list_ready_resumes now limit s)
      × IsSortedBy created (list_ready_resumes now limit s)
unfolding list_ready_resumes
list_ready_resumes_lem now limit s =
    let ready = keep (is_ready now) (values s.approvals) in
    (
      at_most-All (λ a. is_ready now a ≡ true) limit _
          (sort-All (λ a. is_ready now a ≡ true) (by created) ready (keep-All (is_ready now) _)),
      at_most-IsSortedBy limit _ (sort-IsSortedBy created ready),
    )
