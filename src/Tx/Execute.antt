-- ===== src/Tx/Execute.antt =====
-- bus/tx/transaction.go, executeRequest: the ways in which it ends.
use ranch.Prelude.{Bool-cases, List, Option-cases, [], inl, inr, nat_eq, string_eq, ◌==◌, ◌∷◌}
use ranch.Tx.{
  Answers, Effect, Error, Request, Transaction, closing, execute_request, listening, no_store,
  on_transaction_error, outside, send_request, sending, wait_for_store, waiting,
}

module _ {ℓ} (Q : Transaction × List Effect → Type ℓ) (ans : Answers) (req : Request)
    (tx : Transaction) (fails : (e : Error) → Q (on_transaction_error e tx))
    (fails_late : (e : Error)
      → Q (
        (on_transaction_error e tx).0,
        listening req ∷ closing req ∷ (on_transaction_error e tx).1,
      ))
    (waits : Q (tx, waiting req ∷ [])) (sends : Q (tx, listening req ∷ sending req ∷ [])) where
  send_request_cases : Q (send_request ans req tx)
  unfolding send_request
  send_request_cases = elim (Option-cases ans.listen_err) [
    | inr (e, h) ↦ rw (h, send_request) (fails (outside e))
    | inl h ↦
        rw (h, send_request)
          (elim (Option-cases ans.send_err) [
            | inr (e, k) ↦ rw (k, send_request) (fails_late (outside e))
            | inl k ↦ rw (k, send_request) sends
          ])
  ]

  wait_for_store_cases : Q (wait_for_store ans req tx)
  unfolding wait_for_store
  wait_for_store_cases = elim (Bool-cases ans.has_store) [
    | inr h ↦ rw (h, wait_for_store) (fails (no_store req.store_name))
    | inl h ↦
        rw (h, wait_for_store)
          (elim (Option-cases ans.ctx_err_store) [
            | inr (e, k) ↦ rw (k, wait_for_store) (fails (outside e))
            | inl k ↦ rw (k, wait_for_store) waits
          ])
  ]

  pub execute_cases : Q (execute_request ans req tx)
  unfolding execute_request
  execute_cases = elim (Option-cases ans.ctx_err) [
    | inr (e, h) ↦ rw (h, execute_request) (fails (outside e))
    | inl h ↦
        rw (h, execute_request)
          (elim (Bool-cases (req.store_name == "")) [
            | inl k ↦ rw (k, execute_request) send_request_cases
            | inr k ↦ rw (k, execute_request) wait_for_store_cases
          ])
  ]
