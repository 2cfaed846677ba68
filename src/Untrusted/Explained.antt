-- ===== src/Untrusted/Explained.antt =====
-- What is printed for a status: the texts of the table, or the number.
use mathlib.Core.List.{Memᴰ}
use anonymous_communication.Base.{
  ℕ, List, [], ◌∷◌, ◌≡◌, refl, arith, Bool-cases, ◌==◌, ==_iff, ◌⊎◌, inl, inr, ◌≢◌, All,
}
use anonymous_communication.Untrusted.Errors.{
  SgxError, SgxErrlist, sgx_errlist, entry_lines, code_line, print_from, print_error_message,
}

module _ (status : SgxError → ℕ) (bufsiz ret : ℕ) where
  -- An entry of a table has the status, and its lines are the ones that are printed.
  abbrev pub Found : List SgxErrlist → List (List ℕ) → Type 0
  Found entries lines =
      (e : SgxErrlist) × (Memᴰ e entries
        × ((ret ≡ status (e.error)) × (lines ≡ entry_lines bufsiz e)))

  abbrev pub Missed : List SgxErrlist → List (List ℕ) → Type 0
  Missed entries lines =
      All (λ e. ret ≢ status (e.error)) entries × (lines ≡ code_line bufsiz ret ∷ [])

  print_from-cases :
      (entries : List SgxErrlist)
      → Found entries (print_from status bufsiz ret entries)
        ⊎ Missed entries (print_from status bufsiz ret entries)
  unfolding print_from
  print_from-cases [] = inr (tt, refl)
  print_from-cases (e ∷ entries) = elim (Bool-cases (ret == status (e.error))) [
    | inl h ↦ inl (e, (Memᴰ.head refl, ((==_iff ret (status (e.error))).0 h, rw h refl)))
    | inr h ↦ elim (print_from-cases entries) [
      | inl (x, (listed, (same, lines))) ↦ inl (x, (Memᴰ.tail listed, (same, rw h lines)))
      | inr (misses, lines) ↦ inr ((λ same. ground (arith, h, same), misses), rw h lines)
    ]
  ]

  -- A status that no entry has is none of those that the header names.
  named_error_listed :
      (e : SgxError) → All (λ x. ret ≢ status (x.error)) sgx_errlist → ret ≢ status e
  unfolding sgx_errlist
  named_error_listed SgxError.unexpected misses = misses.0
  named_error_listed SgxError.invalid_parameter misses = misses.1.0
  named_error_listed SgxError.out_of_memory misses = misses.1.1.0
  named_error_listed SgxError.enclave_lost misses = misses.1.1.1.0
  named_error_listed SgxError.invalid_enclave misses = misses.1.1.1.1.0
  named_error_listed SgxError.invalid_enclave_id misses = misses.1.1.1.1.1.0
  named_error_listed SgxError.invalid_signature misses = misses.1.1.1.1.1.1.0
  named_error_listed SgxError.out_of_epc misses = misses.1.1.1.1.1.1.1.0
  named_error_listed SgxError.no_device misses = misses.1.1.1.1.1.1.1.1.0
  named_error_listed SgxError.memory_map_conflict misses = misses.1.1.1.1.1.1.1.1.1.0
  named_error_listed SgxError.invalid_metadata misses = misses.1.1.1.1.1.1.1.1.1.1.0
  named_error_listed SgxError.device_busy misses = misses.1.1.1.1.1.1.1.1.1.1.1.0
  named_error_listed SgxError.invalid_version misses = misses.1.1.1.1.1.1.1.1.1.1.1.1.0
  named_error_listed SgxError.invalid_attribute misses = misses.1.1.1.1.1.1.1.1.1.1.1.1.1.0
  named_error_listed SgxError.enclave_file_access misses = misses.1.1.1.1.1.1.1.1.1.1.1.1.1.1.0

  -- For every status, either it is that of an entry of the table, and what is printed are the lines
  -- of that entry, or it is none of the statuses that the header names, and what is printed is the
  -- line with its number.
  pub print_error_message_cases :
      Found sgx_errlist (print_error_message status bufsiz ret)
      ⊎ (((e : SgxError) → ret ≢ status e)
          × (print_error_message status bufsiz ret ≡ code_line bufsiz ret ∷ []))
  unfolding print_error_message
  print_error_message_cases = elim (print_from-cases sgx_errlist) [
    | inl found ↦ inl found
    | inr (misses, lines) ↦ inr (λ e. named_error_listed e misses, lines)
  ]
