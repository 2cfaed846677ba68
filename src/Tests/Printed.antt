-- ===== src/Tests/Printed.antt =====
-- What is printed for a status, on concrete numbers of the statuses.
use anonymous_communication.Base.{ℕ, ◌≡◌, [], ◌∷◌, refl}
use anonymous_communication.Untrusted.Errors.{SgxError, codes, print_error_message}

-- Some numbers, all of them different.
abbrev numbered : SgxError → ℕ
numbered SgxError.unexpected = 1
numbered SgxError.invalid_parameter = 2
numbered SgxError.out_of_memory = 3
numbered SgxError.enclave_lost = 4
numbered SgxError.invalid_enclave = 5
numbered SgxError.invalid_enclave_id = 6
numbered SgxError.invalid_signature = 7
numbered SgxError.out_of_epc = 8
numbered SgxError.no_device = 9
numbered SgxError.memory_map_conflict = 10
numbered SgxError.invalid_metadata = 11
numbered SgxError.device_busy = 12
numbered SgxError.invalid_version = 13
numbered SgxError.invalid_attribute = 14
numbered SgxError.enclave_file_access = 15

lost_enclave_advice :
    print_error_message numbered 8192 4
    ≡ codes "Info: Please refer to the sample \"PowerTransition\" for details.\n"
      ∷ codes "Error: Power transition occurred.\n"
      ∷ []
unfolding print_error_message
lost_enclave_advice = refl

unknown_status_number :
    print_error_message numbered 8192 0x300A
    ≡ codes
        "Error code is 0x300A. Please refer to the \"Intel SGX SDK Developer Reference\" for more details.\n"
      ∷ []
unfolding print_error_message
unknown_status_number = refl

short_buffer : print_error_message numbered 8 2 ≡ codes "Error: " ∷ []
unfolding print_error_message
short_buffer = refl
