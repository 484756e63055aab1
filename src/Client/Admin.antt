-- ===== src/Client/Admin.antt =====
-- The admin subcommands of cmd/mygrok/admin.go: the choice of one in `cmdAdmin`, the requests, and
-- the exit codes. The package flag, net.SplitHostPort and strings.EqualFold are the parameter `Cli`.
pub mod Commands
pub mod Sent
pub mod Applied
use mygrok.Base.{
  ℕ, ◌-◌, Bool, not, ◌&&◌, ◌||◌, List, [], ◌∷◌, ◌++◌, Option, none, some, Bytes, codes, ◌==◌, eqb,
  leb, ltb, if◌then◌else◌, length, take, drop, has_prefix, contains,
}
use mygrok.Base.Error.{Result, ok, err}
use mygrok.Base.Dict.{Dict, lookup, insert}
use mygrok.Client.Args.{split_args}
use mygrok.Client.Config.{require_server}
use mygrok.Client.Names.{looks_like_subdomain}

-- The flags of a subcommand, with the defaults from the environment put in.
pub record AdminFlags : Type 0 where
  pub server : Bytes
  pub auth : Bytes
  pub note : Bytes
  pub json : Bool

-- `none` is an exit for flags that do not parse; `host_of` drops the port, if there is one.
pub record Cli : Type 0 where
  pub parse_flags : List Bytes → Option AdminFlags
  pub host_of : Bytes → Bytes
  pub equal_fold : Bytes → Bytes → Bool

-- The exits before the request.
pub data Fault : Type 0 where
  bad_flags usage invalid_scope invalid_subdomain no_token no_server : Fault

pub record AdminClient : Type 0 where
  pub base_url : Bytes
  pub auth : Bytes

-- A request of the client, with the form in its body.
pub record Post : Type 0 where
  pub client : AdminClient
  pub path : Bytes
  pub form : Dict Bytes

pub record ApiUser : Type 0 where
  pub id : Bytes
  pub name : Bytes

-- Values.Get
unfoldable pub value_of : Dict Bytes → Bytes → Bytes
value_of form k = elim (lookup k form) [ none ↦ [] | some v ↦ v ]

pub data Command : Type 0 where
  admin_login tunnels rules passkeys users invite invites help unknown : Command
  mutate : Bytes → Bytes → Command
  lock_toggle : Bytes → Command
  grant_revoke : Bytes → Command

-- The switch over the first argument.
unfoldable pub command_of : Bytes → Command
command_of a =
    if a == codes "login"
    then admin_login
    else if a == codes "tunnels"
    then tunnels
    else if a == codes "rules"
    then rules
    else if a == codes "allow"
    then mutate (codes "allow") (codes "add")
    else if a == codes "block"
    then mutate (codes "block") (codes "add")
    else if a == codes "unallow"
    then mutate (codes "allow") (codes "remove")
    else if a == codes "unblock"
    then mutate (codes "block") (codes "remove")
    else if (a == codes "lock") || (a == codes "unlock")
    then lock_toggle a
    else if (a == codes "grant") || (a == codes "revoke")
    then grant_revoke a
    else if a == codes "passkeys"
    then passkeys
    else if a == codes "users"
    then users
    else if a == codes "invite"
    then invite
    else if a == codes "invites"
    then invites
    else if (a == codes "help") || ((a == codes "-h") || (a == codes "--help"))
    then help
    else unknown

-- The subcommand and its arguments.
unfoldable pub cmd_admin : List Bytes → Command × List Bytes
cmd_admin [] = (admin_login, [])
cmd_admin (a ∷ args) =
    if has_prefix a (codes "-") then (admin_login, a ∷ args) else (command_of a, args)

-- Whether a status counts as done, and the exit code after an answer.
unfoldable pub accepted : ℕ → Bool
accepted status = leb 200 status && ltb status 400

unfoldable pub exit_code : Bool → ℕ
exit_code done = if done then 0 else 3

unfoldable pub invite_done : ℕ → Bool → Bool
invite_done status said_ok = eqb status 200 && said_ok

-- The ellipsis takes three bytes.
unfoldable pub shorten_id : Bytes → Bytes
shorten_id id =
    if leb (length id) 20 then id else take 8 id ++ (226 ∷ 128 ∷ 166 ∷ drop (length id - 8) id)
