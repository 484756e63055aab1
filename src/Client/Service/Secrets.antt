-- ===== src/Client/Service/Secrets.antt =====
-- Who can read what an installation under systemd writes, and what is left when it is taken back.
use mygrok.Base.{
  ◌≡◌, refl, Bool, true, false, ◌||◌, List, none, Bytes, ◌==◌, keep, arith, if◌then◌else◌,
}
use mygrok.Base.Dict.{Dict, lookup, insert, erase, lookup-insert, lookup-erase}
use mygrok.Client.Service.{
  SvcSpec, Os, Mode, everyone, owner_only, RootFile, subcommand, systemd_args, systemd_unit,
  systemd_files, systemd_unit_path, systemd_env_path, place, uninstall_systemd,
}

abbrev pub is_public : Mode → Bool
is_public everyone = true
is_public owner_only = false

-- The files that every user of the machine can read.
abbrev pub readable : List RootFile → List RootFile
readable = keep (λ f. is_public f.mode)

erase-insert-both :
    (u e x y : Bytes) (disk : Dict Bytes) (p : Bytes)
    → lookup p (erase e (erase u (insert e y (insert u x disk))))
      ≡ (if (u == p) || (e == p) then none else lookup p disk)
erase-insert-both u e x y disk p = ground (
  arith,
  lookup-erase e p (erase u (insert e y (insert u x disk))),
  lookup-erase u p (insert e y (insert u x disk)),
  lookup-insert e p y (insert u x disk),
  lookup-insert u p x disk,
)

module _ (O : Os) where
  -- The files of a service that every user can read are the same whatever the token of the server, the
  -- credentials of basic authentication and the token of `mygrok mcp` are.
  pub readable-systemd_files :
      (user : Bytes) (s : SvcSpec) (token basic_auth mcp_secret : Bytes)
      → readable (
          systemd_files O user
            (record s { token = token; basic_auth = basic_auth; mcp_secret = mcp_secret }))
        ≡ readable (systemd_files O user s)
  unfolding systemd_files systemd_unit systemd_args subcommand
  readable-systemd_files user s token basic_auth mcp_secret = refl

  -- When the unit and the file of secrets of a service under systemd have been put in place and the
  -- service is taken back, these two files are gone, also where there were older ones, and every
  -- other file is as it was before the two were put in place. So the token file that an installation
  -- with `--mcp` writes before stays.
  pub uninstall_systemd-place :
      (user : Bytes) (s : SvcSpec) (disk : Dict Bytes) (p : Bytes)
      → lookup p (uninstall_systemd s.name (place (systemd_files O user s) disk)) ≡ (
          if (systemd_unit_path s.name == p) || (systemd_env_path s.name == p)
          then none
          else lookup p disk)
  unfolding systemd_files place uninstall_systemd
  uninstall_systemd-place user s disk p =
      erase-insert-both (systemd_unit_path s.name) (systemd_env_path s.name) _ _ disk p
