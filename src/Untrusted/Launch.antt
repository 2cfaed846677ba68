-- ===== src/Untrusted/Launch.antt =====
-- `initialize_enclave` of client/untrusted/client.cpp and server/untrusted/server.cpp, which differ
-- in the name of the file only.
use anonymous_communication.Base.{
  ℕ, ◌+◌, Bool, true, false, not, ◌||◌, List, [], ◌∷◌, ◌++◌, Option, none, some, length, take,
  replicate, leb, if◌then◌else◌,
}

-- `sizeof (sgx_launch_token_t)`.
abbrev pub token_size : ℕ
token_size = 1024

-- "enclave_client.token" and "enclave_server.token".
abbrev pub client_token_filename : List ℕ
client_token_filename =
    101 ∷ 110 ∷ 99 ∷ 108 ∷ 97 ∷ 118 ∷ 101 ∷ 95 ∷ 99 ∷ 108 ∷ 105 ∷ 101 ∷ 110 ∷ 116 ∷ 46 ∷ 116 ∷ 111
    ∷ 107 ∷ 101 ∷ 110 ∷ []

abbrev pub server_token_filename : List ℕ
server_token_filename =
    101 ∷ 110 ∷ 99 ∷ 108 ∷ 97 ∷ 118 ∷ 101 ∷ 95 ∷ 115 ∷ 101 ∷ 114 ∷ 118 ∷ 101 ∷ 114 ∷ 46 ∷ 116 ∷ 111
    ∷ 107 ∷ 101 ∷ 110 ∷ []

-- The path in the buffer of `max_path` characters; `none` is a null pointer for the home.
unfoldable pub token_path : ℕ → List ℕ → Option (List ℕ) → List ℕ
token_path max_path filename none = filename
token_path max_path filename (some home_dir) =
    if leb (length home_dir + 1 + (length filename + 1) + 1) max_path
    then home_dir ++ (47 ∷ filename)
    else filename

-- The file at the path, what may be done with it, and how many bytes can be written to it.
pub record Disk : Type 0 where
  pub file : Option (List ℕ)
  pub readable : Bool
  pub writable : Bool
  pub room : ℕ

-- What is done with handles: `reopened` is a `freopen` that has worked, `lost` one that has not and
-- has closed the handle.
pub data FileCall : Type 0 where
  opened closed reopened lost : FileCall

-- What `sgx_create_enclave` gives for a token: whether the status is `SGX_SUCCESS`, whether the
-- token was updated, and the token then.
abbrev pub Create : Type 0
Create = List ℕ → Bool × Bool × List ℕ

-- The result is 0 if `started`, and -1 otherwise; `used` is the token that the SDK was given.
pub record Launch : Type 0 where
  pub started : Bool
  pub used : List ℕ
  pub calls : List FileCall
  pub disk : Disk

-- `fread`, and the `memset` for a token of another size.
unfoldable pub read_token : List ℕ → List ℕ
read_token bytes =
    if leb token_size (length bytes) then take token_size bytes else replicate token_size 0

-- The two calls of `fopen`, the second of which makes an empty file: whether there is a handle, the
-- token, and the file.
unfoldable pub open_token : Disk → Option (List ℕ) → Bool × List ℕ × Disk
unfolding read_token
open_token disk none =
    if disk.writable
    then (true, read_token [], record disk { file = some [] })
    else (false, replicate token_size 0, disk)
open_token disk (some bytes) =
    if disk.readable
    then (true, read_token bytes, disk)
    else if disk.writable
    then (true, read_token [], record disk { file = some [] })
    else (false, replicate token_size 0, disk)

-- The third step, for a token that was updated and a handle.
unfoldable pub save_token : List ℕ → List ℕ → Disk → Launch
save_token used token disk =
    if disk.writable
    then record {
      started = true;
      used = used;
      calls = opened ∷ reopened ∷ closed ∷ [];
      disk = record disk { file = some (take disk.room (take token_size token)) };
    }
    else record { started = true; used = used; calls = opened ∷ lost ∷ []; disk = disk }

abbrev pub handle_calls : Bool → List FileCall
handle_calls handle = if handle then opened ∷ closed ∷ [] else []

unfoldable pub launch : Create → Bool → List ℕ → Disk → Launch
unfolding save_token
launch create handle token disk =
    let (success, updated, token') = create token in
    if not success
    then record { started = false; used = token; calls = handle_calls handle; disk = disk }
    else if not updated || not handle
    then record { started = true; used = token; calls = handle_calls handle; disk = disk }
    else save_token token token' disk

unfoldable pub initialize_enclave : Create → Disk → Launch
unfolding open_token launch
initialize_enclave create disk =
    let (handle, token, disk') = open_token disk disk.file in launch create handle token disk'

-- The two programs, with the home directory and the disk at each path.
unfoldable pub initialize_client_enclave : ℕ → Option (List ℕ) → (List ℕ → Disk) → Create → Launch
unfolding initialize_enclave token_path
initialize_client_enclave max_path home_dir disk_at create =
    initialize_enclave create (disk_at (token_path max_path client_token_filename home_dir))

unfoldable pub initialize_server_enclave : ℕ → Option (List ℕ) → (List ℕ → Disk) → Create → Launch
unfolding initialize_enclave token_path
initialize_server_enclave max_path home_dir disk_at create =
    initialize_enclave create (disk_at (token_path max_path server_token_filename home_dir))
