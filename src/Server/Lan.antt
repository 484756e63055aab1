-- ===== src/Server/Lan.antt =====
-- The LAN-direct records of cmd/mygrokd/lan.go: `lanManager`, its methods and `IsRFC1918`, but for
-- `LANHostname`, which is in Handshake. The DNS provider, with the zone that it keeps, and package
-- netip are the parameter `Provider`.
use mygrok.Base.{
  Bool, false, not, ◌&&◌, [], ◌∷◌, Option, none, some, Bytes, codes, if◌then◌else◌, has_suffix,
  length, take, ◌-◌, to_lower,
}
use mygrok.Base.Dict.{Dict, lookup, insert, erase}

-- Is4() and IsPrivate() of a parsed address.
pub record Addr : Type 0 where
  pub is4 : Bool
  pub is_private : Bool

-- netip.ParseAddr; SetRecords and DeleteRecords on one A record, of a name relative to the zone:
-- `none` is an error.
pub record Provider : Type 1 where
  pub Zone : Type 0
  pub parse_addr : Bytes → Option Addr
  pub set_record : Zone → Bytes → Bytes → Option Zone
  pub delete_record : Zone → Bytes → Bytes → Option Zone

-- `active` maps a host name to the address that was written for it.
pub record LanManager (P : Provider) : Type 0 where
  pub public_host : Bytes
  pub active : Dict Bytes
  pub zone : P.Zone

pub data LanError : Type 0 where
  bad_address not_ipv4 dns_failed : LanError

-- strings.TrimSuffix
unfoldable pub trim_suffix : Bytes → Bytes → Bytes
trim_suffix s t = if has_suffix s t then take (length s - length t) s else s

module _ (P : Provider) where
  unfoldable pub new_lan_manager : Bytes → P.Zone → LanManager P
  new_lan_manager public_host zone = record {
    public_host = to_lower (trim_suffix public_host (codes "."));
    active = [];
    zone = zone;
  }

  unfoldable pub is_rfc1918 : Bytes → Bool
  is_rfc1918 ip = elim (P.parse_addr ip) [ none ↦ false | some a ↦ a.is4 && a.is_private ]

  unfoldable pub relative_name : LanManager P → Bytes → Bytes
  relative_name lm name = trim_suffix name (b'.' ∷ lm.public_host)

  unfoldable pub upsert_a : LanManager P → Bytes → Bytes → LanManager P × Option LanError
  upsert_a lm name ip = elim (P.parse_addr ip) [
    | none ↦ (lm, some bad_address)
    | some a ↦
        if not a.is4
        then (lm, some not_ipv4)
        else elim (P.set_record lm.zone (relative_name lm name) ip) [
          | none ↦ (lm, some dns_failed)
          | some z ↦ (record lm { active = insert name ip lm.active; zone = z }, none)
        ]
  ]

  -- The entry goes first, whatever comes of the record.
  unfoldable pub delete_a : LanManager P → Bytes → LanManager P × Option LanError
  delete_a lm name =
      let rest : LanManager P = record lm { active = erase name lm.active } in
      elim (lookup name lm.active) [
        | none ↦ (rest, none)
        | some ip ↦ elim (P.parse_addr ip) [
          | none ↦ (rest, some bad_address)
          | some a ↦ elim (P.delete_record lm.zone (relative_name lm name) ip) [
            | none ↦ (rest, some dns_failed)
            | some z ↦ (record rest { zone = z }, none)
          ]
        ]
      ]
