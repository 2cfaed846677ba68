-- ===== src/Network.antt =====
-- Nodes together: what a round of one node, client/trusted/client_enclave.cpp and
-- client/untrusted, does at the nodes that it sends to.
pub mod Sealed
pub mod Dummies
pub mod Arrival
pub mod Mail
pub mod Round
pub mod Boot
use anonymous_communication.Base.{ℕ, List, [], ◌∷◌, ◌++◌, take, replicate, Result, ◌>>=◌, ◌+u64◌}
use anonymous_communication.Std.{find_or}
use anonymous_communication.Peer.{PeerInformation, peer_less}
use anonymous_communication.Message.{Message, MessageTuple, dummy_pseudonym}
use anonymous_communication.Crypt.{Primitives}
use anonymous_communication.Client.{ClientEnclave}
use anonymous_communication.Client.Aad.{AadTuple}
use anonymous_communication.Client.TrafficIn.{Plain, deserialize_plain, check_round}
use anonymous_communication.Client.TrafficOut.{Outputs}

-- The additional data for a receiver, before it is written.
abbrev pub aad_of : ClientEnclave → Outputs → PeerInformation → AadTuple
aad_of st out i = record {
  sender = st.own_id;
  receiver = i;
  round = st.cur_round +u64 1;
  p_structure = find_or i [] out.out_structure;
}

-- What an enclave does with additional data and a plaintext that have come to it unharmed.
abbrev pub reaction : Primitives → AadTuple → List ℕ → ClientEnclave → Result ClientEnclave
reaction crypto aad plain st = deserialize_plain plain >>= λ p. check_round crypto aad p st

-- A dummy as it is read back: the pseudonym and the front of the message stand for the message.
abbrev pub dummy_read : Message → MessageTuple
dummy_read unset = record {
  n_src = dummy_pseudonym;
  m = record { msg = replicate 64 0 ++ take 64 unset.msg };
  n_dst = dummy_pseudonym;
  t_dst = 0;
}

-- A plaintext with such a dummy as its announcement and nothing else.
abbrev pub only_dummy : Message → Plain
only_dummy unset = record {
  p_announce = dummy_read unset ∷ [];
  p_agreement = [];
  p_inject = [];
  p_routing = [];
  p_predeliver = [];
  p_deliver = [];
}
