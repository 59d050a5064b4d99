-- ===== src/Wgconfig/Roundtrip/Unbroken.antt =====
-- The lines that internal/wgconfig/profile.go writes hold no line end and no zero byte.
use nft_firewall_v.Prelude.{
  ◌≤◌, ℕ, Bool, true, false, not, ◌≡◌, refl, List, [], ◌∷◌, ◌==◌, ltb, arith, codes, length, All,
}
use nft_firewall_v.Wgconfig.Text.{is_empty, write_lines}
use nft_firewall_v.Wgconfig.Text.Laws.{lacks, lacks-append}
use nft_firewall_v.Wgconfig.Text.Plain.{IsClean, IsPlain-IsClean}
use nft_firewall_v.Wgconfig.{Library, Profile, valid_endpoint_host}
use nft_firewall_v.Wgconfig.Parse.{contains_zero}
use nft_firewall_v.Wgconfig.Print.{
  field_line, optional, endpoint_lines, peer_lines, table_lines, mtu_lines, normalized_lines,
}
use nft_firewall_v.Wgconfig.Accepted.Profiles.{IsProfile, IsPartial, IsMtu}
use nft_firewall_v.Wgconfig.Accepted.Valid.{IsAccepted}
use nft_firewall_v.Wgconfig.Roundtrip.Values.{
  IsLibrary, valid_key-IsClean, addresses_read, servers_read,
}
use nft_firewall_v.Wgconfig.Roundtrip.Written.{keys_known, some_items}
use nft_firewall_v.Wgconfig.Roundtrip.Peers.{preshared}

-- What no written line contains: line ends and the zero byte.
unfoldable pub IsWritten : List ℕ → Type 0
IsWritten t = (lacks 10 t ≡ true) × (lacks 13 t ≡ true) × (lacks 0 t ≡ true)

pub field-IsWritten : (k v : List ℕ) → IsWritten k → IsClean v → IsWritten (field_line k v)
unfolding IsWritten IsClean field_line lacks
field-IsWritten k v h c =
    (lacks-append 10 k _ h.0 c.3, lacks-append 13 k _ h.1 c.4, lacks-append 0 k _ h.2 c.5)

optional-IsWritten :
    (b : Bool) (t : List ℕ) (rest : List (List ℕ))
    → (b ≡ true → IsWritten t)
    → All IsWritten rest
    → All IsWritten (optional b t rest)
unfolding optional
optional-IsWritten true t rest h k = (h refl, k)
optional-IsWritten false t rest h k = k

pub zero_lacks : (t : List ℕ) → contains_zero t ≡ not (lacks 0 t)
unfolding contains_zero lacks
zero_lacks [] = refl
zero_lacks (c ∷ cs) = ground (arith, zero_lacks cs)

pub lacks-write_lines : (ts : List (List ℕ)) → All IsWritten ts → lacks 0 (write_lines ts) ≡ true
unfolding IsWritten write_lines lacks
lacks-write_lines [] h = refl
lacks-write_lines (t ∷ ts) h =
    lacks-append 0 t (10 ∷ write_lines ts) h.0.2 (lacks-write_lines ts h.1)

mtu_bound : (n : ℕ) → IsMtu n → n ≤ 65535
unfolding IsMtu
mtu_bound n h = ground (arith, h)

module _ (L : Library) (known : IsLibrary L) (p : Profile L) where
  endpoint-IsWritten :
      (host : List ℕ)
      → valid_endpoint_host L host ≡ true
      → IsAccepted L p
      → All IsWritten (endpoint_lines L p host)
  unfolding IsWritten endpoint_lines lacks IsAccepted
  endpoint-IsWritten host valid accepted =
      let there = (known.host_read host p.peer.endpoint_port valid).1 in
      let keepalive = (known.number_read p.peer.persistent_keepalive accepted.9).1 in
      (
        (refl, refl, refl),
        (
          field-IsWritten (codes "Endpoint") _ (refl, refl, refl) (IsPlain-IsClean _ there),
          optional-IsWritten (not (p.peer.persistent_keepalive == 0)) _ []
              (λ e.
                field-IsWritten (codes "PersistentKeepalive") _ (refl, refl, refl)
                  (IsPlain-IsClean _ keepalive))
              tt,
        ),
      )

  pub peer-IsWritten :
      (host : List ℕ)
      → valid_endpoint_host L host ≡ true
      → IsAccepted L p
      → All IsWritten (peer_lines L p host)
  unfolding IsWritten peer_lines lacks IsAccepted
  peer-IsWritten host valid accepted =
      let keys = keys_known L p accepted.0 in
      (
        (refl, refl, refl),
        (
          field-IsWritten (codes "PublicKey") _ (refl, refl, refl)
              (valid_key-IsClean L known _ keys.1),
          optional-IsWritten (not (is_empty p.peer.preshared_key)) _ (endpoint_lines L p host)
              (λ e.
                field-IsWritten (codes "PresharedKey") _ (refl, refl, refl)
                  (valid_key-IsClean L known _ (preshared _ _ keys.2 e)))
              (endpoint-IsWritten host valid accepted),
        ),
      )

  table-IsWritten : IsAccepted L p → All IsWritten (table_lines L p)
  unfolding IsWritten table_lines lacks IsAccepted
  table-IsWritten accepted = (
    (refl, refl, refl),
    ((refl, refl, refl), peer-IsWritten p.peer.endpoint_host accepted.5 accepted),
  )

  mtu-IsWritten : IsAccepted L p → All IsWritten (mtu_lines L p)
  unfolding IsWritten mtu_lines lacks IsAccepted
  mtu-IsWritten accepted =
      optional-IsWritten (not (p.mtu == 0)) _ (table_lines L p)
        (λ e.
          field-IsWritten (codes "MTU") _ (refl, refl, refl)
            (IsPlain-IsClean _ (known.number_read p.mtu (mtu_bound p.mtu accepted.8)).1))
        (table-IsWritten accepted)

  pub all-IsWritten : IsAccepted L p → IsProfile L p → All IsWritten (normalized_lines L p)
  unfolding IsWritten normalized_lines lacks IsAccepted IsProfile IsPartial
  all-IsWritten accepted kept =
      let keys = keys_known L p accepted.0 in
      let addresses =
        addresses_read L known p.addresses accepted.1 accepted.2 accepted.3 kept.1.1 in
      (
        (refl, refl, refl),
        (
          field-IsWritten (codes "PrivateKey") _ (refl, refl, refl)
              (valid_key-IsClean L known _ keys.0),
          (
            field-IsWritten (codes "Address") _ (refl, refl, refl) addresses.0,
            optional-IsWritten (ltb 0 (length p.dns)) _ (mtu_lines L p)
                (λ e.
                  field-IsWritten (codes "DNS") _ (refl, refl, refl)
                    (servers_read L known p.dns (some_items p.dns e) kept.1.2).0)
                (mtu-IsWritten accepted),
          ),
        ),
      )
