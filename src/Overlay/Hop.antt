-- ===== src/Overlay/Hop.antt =====
-- The next hop of a maintenance message on its way to the node `onid`: step (9) of `update`.
use anonymous_communication.Base.{
  ℕ, zero, suc, ◌+◌, ◌/◌, ◌^◌, ◌<◌, ◌≤◌, if◌then◌else◌, ◌==◌, ◌≡◌, refl, arith, bit_and, ◌>>>◌,
}
use anonymous_communication.Base.Bits.{bit_at, bit_and_mask}
use anonymous_communication.Routing.{assign_bit}
use anonymous_communication.Routing.Bit.{assign_bit_lem}

-- The loop from bit `i` on, with the rounds left; it breaks at the first bit that differs.
unfoldable pub hop_loop : ℕ → ℕ → ℕ → ℕ → ℕ
hop_loop zero i own onid = own
hop_loop (suc left) i own onid =
    let rest = hop_loop left (i + 1) own onid in
    if bit_and (onid >>> i) 1 == bit_and (own >>> i) 1
    then rest
    else assign_bit own i (bit_and (onid >>> i) 1)

unfoldable pub next_hop : ℕ → ℕ → ℕ → ℕ
unfolding hop_loop
next_hop dim onid own = hop_loop dim 0 own onid

-- The bits from `i` to below `i + left` agree.
abbrev pub Agree : ℕ → ℕ → ℕ → Type 0
Agree n x y = (j : ℕ) → j < n → bit_at x j ≡ bit_at y j

low_bit : (x i : ℕ) → bit_and (x >>> i) 1 ≡ bit_at x i
low_bit x i = bit_and_mask 1 (x / 2 ^ i)

hop_loop_keeps :
    (left i j own onid : ℕ)
    → i + left < 64
    → j < i
    → bit_at (hop_loop left i own onid) j ≡ bit_at own j
unfolding hop_loop
hop_loop_keeps zero i j own onid h lt = refl
hop_loop_keeps (suc left) i j own onid h lt = ground (
  arith,
  hop_loop_keeps left (i + 1) j own onid,
  low_bit onid i,
  assign_bit_lem own i (bit_and (onid >>> i) 1) j,
)

-- The bit at which the loop stands agrees after it, if those below did.
hop_loop_fixes :
    (left i k j own onid : ℕ)
    → i + left < 64
    → i ≤ k
    → k < i + left
    → Agree k own onid
    → j < suc k
    → bit_at (hop_loop left i own onid) j ≡ bit_at onid j
unfolding hop_loop
hop_loop_fixes zero i k j own onid h lo hi a lt = absurd (omega arith)
hop_loop_fixes (suc left) i k j own onid h lo hi a lt = ground (
  arith,
  hop_loop_keeps left (i + 1) j own onid,
  hop_loop_fixes left (i + 1) k j own onid,
  low_bit onid i,
  low_bit own i,
  assign_bit_lem own i (bit_and (onid >>> i) 1) j,
  a i,
  a j,
)

-- A maintenance message that is passed on `n` times.
abbrev pub hops : ℕ → ℕ → ℕ → ℕ → ℕ
hops dim onid zero own = own
hops dim onid (suc n) own = next_hop dim onid (hops dim onid n own)

hops-Agree : (dim onid own n : ℕ) → dim < 64 → n ≤ dim → Agree n (hops dim onid n own) onid
unfolding next_hop
hops-Agree dim onid own zero h le = λ j lt. absurd (omega arith)
hops-Agree dim onid own (suc n) h le = λ j lt.
    hop_loop_fixes dim 0 n j (hops dim onid n own) onid (omega arith) (omega arith) (omega arith)
      (hops-Agree dim onid own n h (omega arith)) lt

-- For a dimension below 64, a maintenance message that is passed on as many times as there are
-- dimensions is at a node that has every bit of its destination.
pub hops_arrive :
    (dim onid own j : ℕ) → dim < 64 → j < dim → bit_at (hops dim onid dim own) j ≡ bit_at onid j
hops_arrive dim onid own j h lt = hops-Agree dim onid own dim h (omega arith) j lt
