-- ===== src/Tests/Samples.antt =====
-- Objects for the concrete inputs.
use anonymous_communication.Base.{
  ℕ, Result, ok, err, Bool, false, ◌≡◌, true, List, [], ◌∷◌, Option, none, some, replicate, refl,
  ap, length, subst, sym,
}
use anonymous_communication.Config.{message_size, pseudonym_size}
use anonymous_communication.Peer.{PeerInformation}
use anonymous_communication.Message.{Pseudonym, Message, MessageTuple}
use anonymous_communication.Message.Schemes.{RoutingSchemeTuple}
use anonymous_communication.Crypt.{Primitives, IsLawful, mac_size}
use anonymous_communication.Overlay.{OverlayStructureScheme}
use anonymous_communication.Client.{ClientEnclave, empty_inbox}
use anonymous_communication.Client.TrafficOut.{Outside}
use anonymous_communication.Untrusted.Node.{Turn}

abbrev pub peer : ℕ → PeerInformation
peer n = record { id = n; uri = record { ip1 = 127; ip2 = 0; ip3 = 0; ip4 = 1; port = 5671 } }

abbrev pub sample_pseudonym : ℕ → Pseudonym
sample_pseudonym n = record { pseud = replicate pseudonym_size n }

abbrev pub sample_message : ℕ → Message
sample_message n = record { msg = replicate message_size n }

abbrev pub sample_tuple : ℕ → ℕ → MessageTuple
sample_tuple n t = record {
  n_src = sample_pseudonym n;
  m = sample_message n;
  n_dst = sample_pseudonym n;
  t_dst = t;
}

-- A cipher that hides nothing, with a tag of zeros.
abbrev pub open_crypto : Primitives
open_crypto = record {
  seal = λ key iv aad p. some (p, replicate mac_size 0);
  unseal = λ key iv aad ct mac. some ct;
  cmac = λ key bytes. some (replicate 16 0);
}

plain_of : Option (List ℕ × List ℕ) → List ℕ × List ℕ
plain_of none = ([], [])
plain_of (some r) = r

pub open_crypto-IsLawful : IsLawful open_crypto
unfolding plain_of
open_crypto-IsLawful = record {
  sealed_length = λ key iv aad p ct mac e.
      subst (λ r. (length (r.0) ≡ length p) × (length (r.1) ≡ mac_size)) (ap plain_of e)
        (refl, refl);
  opens = λ key iv aad p ct mac e. sym (ap (λ r. some ((plain_of r).0)) e);
}

abbrev pub sample_overlay : OverlayStructureScheme
sample_overlay = record {
  onid_assoc = 0;
  onid_emul = 0;
  gamma_agree = [];
  gamma_send = peer 1 ∷ [];
  gamma_receive = peer 2 ∷ [];
  gamma_route = [];
  overlay_dimension = 3;
  reconfiguration_time = 10;
  own_id = peer 0;
  onid_emul_prev = 0;
  onid_emul_new = 0;
  gamma_agree_prev = [];
  gamma_send_new = [];
  gamma_route_new = [];
  gamma_route_succ = [];
  gamma_route_prev = [];
  gamma_receive_new = [];
}

-- An overlay that knows no peers.
abbrev pub lone_overlay : OverlayStructureScheme
lone_overlay = record sample_overlay { gamma_send = []; gamma_receive = [] }

abbrev pub sample_client : ClientEnclave
sample_client = record {
  initialized = true;
  init_time = 100;
  init_time_nonce = 7 ∷ [];
  overlay_dimension = 3;
  m_corrupt = 1;
  max_quorum_size = 4;
  max_routing_msg_out = 1;
  onid_repr = 2;
  onid_emul = 0;
  own_id = peer 0;
  sk_pseud = 1 ∷ [];
  sk_enc = 2 ∷ [];
  sk_routing = 3 ∷ [];
  q_in_for_pseudonyms = [];
  q_out = [];
  num_q_out_entries = [];
  pseudonyms = [];
  overlay_structure_scheme = lone_overlay;
  in_now = empty_inbox;
  in_next = empty_inbox;
  agreement_tuples = [];
  cur_round = 4;
  gamma_agree_for_round = [];
}

abbrev pub sample_outside : Outside
sample_outside = record {
  crypto = open_crypto;
  random_number = 5;
  iv = λ k. replicate 12 k;
  unset_peer = peer 9;
  unset_message = sample_message 0;
}

abbrev pub sample_routing : ℕ → ℕ → RoutingSchemeTuple
sample_routing n l = record {
  m = sample_tuple n 400;
  onid_dst = 5;
  bucket_dst = sample_pseudonym 1;
  l_dst = l;
  onid_current = 2;
}

-- A round of a node in which nothing comes from outside.
abbrev pub sample_turn : Turn
sample_turn = record {
  incoming = none;
  command = none;
  due = false;
  clock = none;
  send_clock = none;
  out_clock = none;
  receive_clock = none;
  iv = [];
  outside = sample_outside;
  unset_n_dst = sample_pseudonym 0;
  quorum_bound = λ n. 50;
  routing_bound = λ d b. 432;
}

-- The value of a run that is seen to return.
unfoldable pub is_ok : {A : Type 0} → Result A → Bool
is_ok (ok a) = true
is_ok (err f) = false

unfoldable pub outcome : {A : Type 0} (r : Result A) → is_ok r ≡ true → (a : A) × (r ≡ ok a)
unfolding is_ok
outcome (ok a) h = (a, refl)
outcome (err f) h = cc
