-- ===== src/Untrusted/Errors.antt =====
-- include/errors.h: what the processes print for a status of `sgx_create_enclave`.
use Prim.Native.String.{String}
use Prim.Native.Char.{code}
use anonymous_communication.Base.{
  ℕ, zero, suc, ◌+◌, ◌-◌, ◌/◌, ◌%◌, List, [], ◌∷◌, ◌++◌, Option, none, some, take, ltb, ◌==◌,
  if◌then◌else◌,
}

-- The codes of the characters of a text.
abbrev pub codes : String → List ℕ
codes String.[] = []
codes (String.◌∷◌ c s) = code c ∷ codes s

-- The statuses that the header names. Their numbers are the SDK's.
pub data SgxError : Type 0 where
  unexpected invalid_parameter out_of_memory enclave_lost invalid_enclave invalid_enclave_id :
      SgxError
  invalid_signature out_of_epc no_device memory_map_conflict invalid_metadata : SgxError
  device_busy invalid_version invalid_attribute enclave_file_access : SgxError

pub record SgxErrlist : Type 0 where
  pub error : SgxError
  pub msg : List ℕ
  pub sug : Option (List ℕ)

abbrev entry : SgxError → String → SgxErrlist
entry e text = record { error = e; msg = codes text; sug = none }

abbrev advised : SgxError → String → String → SgxErrlist
advised e text suggestion = record { error = e; msg = codes text; sug = some (codes suggestion) }

unfoldable pub sgx_errlist : List SgxErrlist
sgx_errlist =
    entry unexpected "Unexpected error occurred."
    ∷ entry invalid_parameter "Invalid parameter."
    ∷ entry out_of_memory "Out of memory."
    ∷ advised enclave_lost "Power transition occurred."
        "Please refer to the sample \"PowerTransition\" for details."
    ∷ entry invalid_enclave "Invalid enclave image."
    ∷ entry invalid_enclave_id "Invalid enclave identification."
    ∷ entry invalid_signature "Invalid enclave signature."
    ∷ entry out_of_epc "Out of EPC memory."
    ∷ advised no_device "Invalid SGX device."
        "Please make sure SGX module is enabled in the BIOS, and install SGX driver afterwards."
    ∷ entry memory_map_conflict "Memory map conflicted."
    ∷ entry invalid_metadata "Invalid enclave metadata."
    ∷ entry device_busy "SGX device was busy."
    ∷ entry invalid_version "Enclave version was invalid."
    ∷ entry invalid_attribute "Enclave was not authorized."
    ∷ entry enclave_file_access "Can't open enclave file."
    ∷ []

-- The text that a formatted print gives to `ocall_print_string`: its buffer has `bufsiz`
-- characters, the last of which is the zero.
unfoldable pub h_printf : ℕ → List ℕ → List ℕ
h_printf bufsiz text = take (bufsiz - 1) text

-- `%X`: the digits of a number in capitals, the rounds left being as many as it may have digits.
unfoldable pub hexadecimal : ℕ → ℕ → List ℕ
hexadecimal zero n = []
hexadecimal (suc left) n =
    let front = hexadecimal left (n / 16) in
    let digit = if ltb (n % 16) 10 then 48 + n % 16 else 55 + n % 16 in
    if ltb n 16 then digit ∷ [] else front ++ (digit ∷ [])

-- The lines for an entry of the table.
unfoldable pub entry_lines : ℕ → SgxErrlist → List (List ℕ)
unfolding h_printf
entry_lines bufsiz e =
    let error_line = h_printf bufsiz (codes "Error: " ++ (e.msg ++ codes "\n")) in
    elim (e.sug) [
      | none ↦ error_line ∷ []
      | some s ↦ h_printf bufsiz (codes "Info: " ++ (s ++ codes "\n")) ∷ error_line ∷ []
    ]

-- The line for a status that is not in the table.
unfoldable pub code_line : ℕ → ℕ → List ℕ
unfolding h_printf hexadecimal
code_line bufsiz ret = h_printf bufsiz (
    codes "Error code is 0x"
    ++ (hexadecimal 8 ret
        ++ codes ". Please refer to the \"Intel SGX SDK Developer Reference\" for more details.\n"))

-- The loop over the table from an index on, and the test behind it.
unfoldable pub print_from : (SgxError → ℕ) → ℕ → ℕ → List SgxErrlist → List (List ℕ)
unfolding entry_lines code_line
print_from status bufsiz ret [] = code_line bufsiz ret ∷ []
print_from status bufsiz ret (e ∷ entries) =
    let rest = print_from status bufsiz ret entries in
    if ret == status (e.error) then entry_lines bufsiz e else rest

unfoldable pub print_error_message : (SgxError → ℕ) → ℕ → ℕ → List (List ℕ)
unfolding print_from sgx_errlist
print_error_message status bufsiz ret = print_from status bufsiz ret sgx_errlist
