-- ===== src/Untrusted/Tokens.antt =====
-- The launch token: its path, its file and its handles.
use anonymous_communication.Base.{
  ℕ, zero, suc, ◌+◌, ◌≤◌, ◌<◌, Bool, true, false, not, ◌||◌, List, [], ◌∷◌, Option, none, some,
  length, length-append, take, ◌≡◌, refl, ap, arith, subst, sym, ◌∙◌, Bool-cases, inl, inr,
}
use anonymous_communication.Untrusted.Launch.{
  token_size, token_path, Disk, FileCall, opened, closed, reopened, lost, Create, read_token,
  open_token, save_token, handle_calls, launch, initialize_enclave,
}

-- The path and the zero behind it fit the buffer, for every home directory.
pub token_path_fits :
    (max_path : ℕ) (filename : List ℕ) (home : Option (List ℕ))
    → length filename < max_path
    → length (token_path max_path filename home) + 1 ≤ max_path
unfolding token_path
token_path_fits max_path filename none h = omega arith
token_path_fits max_path filename (some dir) h = ground (arith, length-append dir (47 ∷ filename))

-- The handles that are open after the calls; `none` if one is closed that is not open.
abbrev pub open_handles : ℕ → List FileCall → Option ℕ
open_handles n [] = some n
open_handles n (opened ∷ calls) = open_handles (n + 1) calls
open_handles zero (closed ∷ calls) = none
open_handles zero (reopened ∷ calls) = none
open_handles zero (lost ∷ calls) = none
open_handles (suc n) (closed ∷ calls) = open_handles n calls
open_handles (suc n) (reopened ∷ calls) = open_handles (suc n) calls
open_handles (suc n) (lost ∷ calls) = open_handles n calls

balanced : (handle : Bool) → open_handles 0 (handle_calls handle) ≡ some 0
balanced true = refl
balanced false = refl

launch_closes :
    (create : Create) (handle : Bool) (token : List ℕ) (disk : Disk)
    → (open_handles 0 (launch create handle token disk).calls ≡ some 0)
      × ((launch create handle token disk).started ≡ (create token).0)
unfolding launch save_token
launch_closes create handle token disk = elim (Bool-cases ((create token).0)) [
  | inr failed ↦ rw failed (balanced handle, refl)
  | inl worked ↦ elim (Bool-cases (not (create token).1 || not handle)) [
    | inl same ↦ rw (worked, same) (balanced handle, refl)
    | inr new ↦ elim (Bool-cases disk.writable) [
      | inl can ↦ rw (worked, new, can) (refl, refl)
      | inr cannot ↦ rw (worked, new, cannot) (refl, refl)
    ]
  ]
]

launch_uses :
    (create : Create) (handle : Bool) (token : List ℕ) (disk : Disk)
    → (launch create handle token disk).used ≡ token
unfolding launch save_token
launch_uses create handle token disk = elim (Bool-cases ((create token).0)) [
  | inr failed ↦ rw failed refl
  | inl worked ↦ elim (Bool-cases (not (create token).1 || not handle)) [
    | inl same ↦ rw (worked, same) refl
    | inr new ↦ elim (Bool-cases disk.writable) [
      | inl can ↦ rw (worked, new, can) refl
      | inr cannot ↦ rw (worked, new, cannot) refl
    ]
  ]
]

-- Whatever the disk allows and the SDK answers, every handle that is opened is closed once, and the
-- result is 0 exactly if the enclave was created.
pub initialize_enclave_closes :
    (create : Create) (disk : Disk)
    → (open_handles 0 (initialize_enclave create disk).calls ≡ some 0)
      × ((initialize_enclave create disk).started
          ≡ (create ((initialize_enclave create disk).used)).0)
unfolding initialize_enclave
initialize_enclave_closes create disk =
    let (handle, token, disk') = open_token disk disk.file in
    let (even, result) = launch_closes create handle token disk' in
    (even, rw (launch_uses create handle token disk') result)

-- With both rights there is a handle, and only the file may change.
opens :
    (disk : Disk) (file : Option (List ℕ))
    → disk.readable ≡ true
    → disk.writable ≡ true
    → (token : List ℕ) × (disk' : Disk) × (open_token disk file ≡ (true, token, disk'))
      × (disk'.readable ≡ true)
      × (disk'.writable ≡ true)
      × (disk'.room ≡ disk.room)
unfolding open_token
opens disk none can_read can_write =
    (read_token [], record disk { file = some [] }, rw can_write refl, can_read, can_write, refl)
opens disk (some bytes) can_read can_write =
    (read_token bytes, disk, rw can_read refl, can_read, can_write, refl)

take_all : (n : ℕ) (xs : List ℕ) → length xs ≤ n → take n xs ≡ xs
take_all zero [] h = refl
take_all zero (x ∷ xs) h = absurd (omega arith)
take_all (suc n) [] h = refl
take_all (suc n) (x ∷ xs) h = ap (◌∷◌ x) (take_all n xs (omega arith))

saved :
    (create : Create) (token token' : List ℕ) (disk : Disk)
    → disk.writable ≡ true
    → token_size ≤ disk.room
    → length token' ≡ token_size
    → create token ≡ (true, true, token')
    → (launch create true token disk).disk ≡ record disk { file = some token' }
unfolding launch save_token
saved create token token' disk can room size updated =
    rw
      (
        updated,
        can,
        take_all token_size token' (omega arith),
        take_all disk.room token' (omega arith),
      )
      refl

initialize-launch :
    (create : Create) (disk disk' : Disk) (handle : Bool) (token : List ℕ)
    → open_token disk disk.file ≡ (handle, token, disk')
    → initialize_enclave create disk ≡ launch create handle token disk'
unfolding initialize_enclave
initialize-launch create disk disk' handle token e =
    ap (λ (r : Bool × List ℕ × Disk). launch create r.0 r.1 r.2) e

reads_back :
    (next : Create) (disk : Disk) (token : List ℕ)
    → disk.readable ≡ true
    → length token ≡ token_size
    → (initialize_enclave next (record disk { file = some token })).used ≡ token
unfolding open_token read_token
reads_back next disk token can size =
    ap (λ l. l.used)
      (initialize-launch next (record disk { file = some token })
        (record disk { file = some token }) true token
        (rw (can, size, take_all token_size token (omega arith)) refl))
    ∙ launch_uses next true token (record disk { file = some token })

-- A launch token of the right size that the SDK has updated is the token that the SDK is given at
-- the next start, if the file can be read and written and has room for it.
pub token_kept :
    (create next : Create) (disk : Disk) (token : List ℕ)
    → disk.readable ≡ true
    → disk.writable ≡ true
    → token_size ≤ disk.room
    → length token ≡ token_size
    → create ((initialize_enclave create disk).used) ≡ (true, true, token)
    → (initialize_enclave next ((initialize_enclave create disk).disk)).used ≡ token
token_kept create next disk token can_read can_write room size updated =
    let (first, disk', is, reads, writes, same) = opens disk disk.file can_read can_write in
    let run = initialize-launch create disk disk' true first is in
    let used = ap (λ l. l.used) run ∙ launch_uses create true first disk' in
    let kept =
      saved create first token disk' writes (omega arith) size
        (subst (λ t. create t ≡ (true, true, token)) used updated) in
    subst (λ d. (initialize_enclave next d).used ≡ token) (sym (ap (λ l. l.disk) run ∙ kept))
      (reads_back next disk' token reads size)
