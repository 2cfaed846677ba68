-- ===== src/Peer/Typed.antt =====
-- What the readers of peers return fits the types of the members.
use anonymous_communication.Base.{ℕ, ◌<◌, ◌^◌, List, ok, ok-inj, ◌≡◌, ap, subst}
use anonymous_communication.Serial.{deserialize_number}
use anonymous_communication.Serial.Bind.{read-eq-ok}
use anonymous_communication.Serial.Reads.{deserialize_number_bound}
use anonymous_communication.Peer.{Uri, PeerInformation, deserialize_uri, deserialize_peer}

-- Four bytes and a number of 64 bits.
abbrev pub FitsUri : Uri → Type 0
FitsUri u =
    (u.ip1 < 2 ^ 8) × (u.ip2 < 2 ^ 8) × (u.ip3 < 2 ^ 8) × (u.ip4 < 2 ^ 8) × (u.port < 2 ^ 64)

abbrev pub FitsPeer : PeerInformation → Type 0
FitsPeer p = (p.id < 2 ^ 64) × FitsUri p.uri

deserialize_uri-FitsUri :
    (u : Uri) (bytes rest : List ℕ) → deserialize_uri bytes ≡ ok (u, rest) → FitsUri u
unfolding deserialize_uri
deserialize_uri-FitsUri u bytes rest e =
    let (b1, m₁, r₁, e₁) = read-eq-ok _ (deserialize_number 1) bytes e in
    let (b2, m₂, r₂, e₂) = read-eq-ok _ (deserialize_number 1) m₁ e₁ in
    let (b3, m₃, r₃, e₃) = read-eq-ok _ (deserialize_number 1) m₂ e₂ in
    let (b4, m₄, r₄, e₄) = read-eq-ok _ (deserialize_number 1) m₃ e₃ in
    let (port, m₅, r₅, e₅) = read-eq-ok _ (deserialize_number 8) m₄ e₄ in
    subst FitsUri (ap (λ r. r.0) (ok-inj e₅)) (
      deserialize_number_bound 1 b1 bytes m₁ r₁,
      deserialize_number_bound 1 b2 m₁ m₂ r₂,
      deserialize_number_bound 1 b3 m₂ m₃ r₃,
      deserialize_number_bound 1 b4 m₃ m₄ r₄,
      deserialize_number_bound 8 port m₄ m₅ r₅,
    )

pub deserialize_peer-FitsPeer :
    (p : PeerInformation) (bytes rest : List ℕ) → deserialize_peer bytes ≡ ok (p, rest) → FitsPeer p
unfolding deserialize_peer
deserialize_peer-FitsPeer p bytes rest e =
    let (id, m₁, r₁, e₁) = read-eq-ok _ (deserialize_number 8) bytes e in
    let (uri, m₂, r₂, e₂) = read-eq-ok _ deserialize_uri m₁ e₁ in
    subst FitsPeer (ap (λ r. r.0) (ok-inj e₂))
      (deserialize_number_bound 8 id bytes m₁ r₁, deserialize_uri-FitsUri uri m₁ m₂ r₂)
