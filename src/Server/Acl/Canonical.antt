-- ===== src/Server/Acl/Canonical.antt =====
-- What `parseIPOrCIDR` of cmd/mygrokd/ipacl.go returns, given to it again.
use mygrok.Base.{
  ◌≡◌, sym, ◌∙◌, subst, true, false, [], none, some, Bytes, codes, arith, Option-cases, inl, inr,
  Bool-cases, trim_space, contains,
}
use mygrok.Base.Error.{ok}
use mygrok.Server.Acl.{Net, Entry, parse_ip_or_cidr}
use mygrok.Server.Acl.Restart.{NetLaws, Parses}

module _ {N : Net} (laws : NetLaws N) where
  range : N.IpNet → Entry N
  range n = record { raw = N.net_string n; net = some n; ip = none; note = [] }

  address : N.Ip → Entry N
  address a = record { raw = N.ip_string a; net = none; ip = some a; note = [] }

  range_parses :
      (s : Bytes) (n : N.IpNet)
      → N.parse_cidr s ≡ some n
      → parse_ip_or_cidr N (N.net_string n) ≡ ok (range n)
  unfolding parse_ip_or_cidr range
  range_parses s n p =
      let c = laws.net_clean n in rw (c.trimmed, c.present, laws.net_slash n, laws.net_back s n p)

  address_parses :
      (s : Bytes) (a : N.Ip)
      → N.parse_ip s ≡ some a
      → parse_ip_or_cidr N (N.ip_string a) ≡ ok (address a)
  unfolding parse_ip_or_cidr address
  address_parses s a p =
      let c = laws.ip_clean a in rw (c.trimmed, c.present, laws.ip_slash a, laws.ip_back s a p)

  -- What the parser can return.
  parsed_range :
      (s : Bytes) {e : Entry N}
      → parse_ip_or_cidr N s ≡ ok e
      → contains (trim_space s) (codes "/") ≡ true
      → (n : N.IpNet) × (N.parse_cidr (trim_space s) ≡ some n) × (e ≡ range n)
  unfolding parse_ip_or_cidr range
  parsed_range s p slash = elim (Option-cases (N.parse_cidr (trim_space s))) [
    | inl q ↦ absurd (ground arith)
    | inr (n, q) ↦ (n, q, ground arith)
  ]

  parsed_address :
      (s : Bytes) {e : Entry N}
      → parse_ip_or_cidr N s ≡ ok e
      → contains (trim_space s) (codes "/") ≡ false
      → (a : N.Ip) × (N.parse_ip (trim_space s) ≡ some a) × (e ≡ address a)
  unfolding parse_ip_or_cidr address
  parsed_address s p plain = elim (Option-cases (N.parse_ip (trim_space s))) [
    | inl q ↦ absurd (ground arith)
    | inr (a, q) ↦ (a, q, ground arith)
  ]

  -- What the parser accepts is in canonical form: its text parses to the same entry.
  parse_ip_or_cidr_idem :
      (s : Bytes) {e : Entry N} → parse_ip_or_cidr N s ≡ ok e → parse_ip_or_cidr N e.raw ≡ ok e
  unfolding range address
  parse_ip_or_cidr_idem s {e} p = elim (Bool-cases (contains (trim_space s) (codes "/"))) [
    | inl slash ↦
        let (n, q, r) = parsed_range s p slash in
        subst (λ (d : Entry N). parse_ip_or_cidr N d.raw ≡ ok d) (sym r) (range_parses _ n q)
    | inr plain ↦
        let (a, q, r) = parsed_address s p plain in
        subst (λ (d : Entry N). parse_ip_or_cidr N d.raw ≡ ok d) (sym r) (address_parses _ a q)
  ]

  parsed_note : (s : Bytes) {e : Entry N} → parse_ip_or_cidr N s ≡ ok e → e.note ≡ []
  unfolding parse_ip_or_cidr
  parsed_note s p = ground arith

  pub noted_Parses :
      (s note : Bytes) {e : Entry N}
      → parse_ip_or_cidr N s ≡ ok e
      → Parses (record e { note = note })
  noted_Parses s note {e} p = parse_ip_or_cidr_idem s p ∙ ground (arith, parsed_note s p)
