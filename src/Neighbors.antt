-- ===== src/Neighbors.antt =====
-- include/shared_functions.h: the neighbours of a node of the hypercube.
use anonymous_communication.Base.{ℕ, zero, suc, ◌+◌, ◌%◌, ◌^◌, List, [], ◌∷◌, bit_xor}

-- The loop over the dimensions from `i` on, with the rounds left.
unfoldable pub flipped : ℕ → ℕ → ℕ → List ℕ
flipped zero i node_id = []
flipped (suc left) i node_id = bit_xor node_id (2 ^ i % 2 ^ 64) ∷ flipped left (i + 1) node_id

-- The arguments that `for_all_neighbors` calls its function with, in order.
unfoldable pub for_all_neighbors : ℕ → ℕ → List ℕ
unfolding flipped
for_all_neighbors node_id dimension = node_id ∷ flipped dimension 0 node_id
