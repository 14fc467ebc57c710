-- ===== src/Backend/Privileges.antt =====
-- The start of the process that checks passwords, `initialize_pw_backend` in its two forms, and the
-- way of shadow.c's `run_pw_backend_child` to its loop. The calls on user and group ids are as POSIX
-- describes them; what the user database holds, and whether the system grants a change, are
-- arguments.
use swaylock.Base.{ℕ, Bool, true, not, ◌||◌, Option, none, some, List, [], ◌∷◌, ◌==◌, if◌then◌else◌}
use swaylock.Image.{text_eq}
use swaylock.Backend.{Requests, Child, run_shadow}

-- The ids of a process, for its user or its group.
pub record Ids : Type 0 where
  pub real : ℕ
  pub effective : ℕ
  pub saved : ℕ

pub record Credentials : Type 0 where
  pub uid : Ids
  pub gid : Ids

abbrev pub all_ids : ℕ → Ids
all_ids n = record { real = n; effective = n; saved = n }

-- Both set all ids for root; others may go back to the real or the saved id.
abbrev change : Bool → Bool → ℕ → Ids → Option Ids
change granted root n ids =
    if not granted
    then none
    else if root
    then some (all_ids n)
    else if ids.real == n || ids.saved == n
    then some (record ids { effective = n })
    else none

unfoldable pub setuid : Bool → ℕ → Credentials → Option Credentials
setuid granted n c = elim (change granted (c.uid.effective == 0) n c.uid) [
  | none ↦ none
  | some ids ↦ some (record c { uid = ids })
]

unfoldable pub setgid : Bool → ℕ → Credentials → Option Credentials
setgid granted n c = elim (change granted (c.uid.effective == 0) n c.gid) [
  | none ↦ none
  | some ids ↦ some (record c { gid = ids })
]

-- Whether the system grants the two changes of ids.
pub record Grants : Type 0 where
  pub gid : Bool
  pub uid : Bool

-- `setgid(getgid())`, `setuid(getuid())`, and `setuid(0)`, which has to fail; `none` is an exit. The
-- last call is never short of resources: only root may make it, and for root it changes nothing.
unfoldable pub drop_root : Grants → Credentials → Option Credentials
unfolding setgid setuid
drop_root grants c = elim (setgid grants.gid c.gid.real c) [
  | none ↦ none
  | some c1 ↦ elim (setuid grants.uid c1.uid.real c1) [
    | none ↦ none
    | some c2 ↦ elim (setuid true 0 c2) [ none ↦ some c2 | some c3 ↦ none ]
  ]
]

-- `initialize_pw_backend` exits, or returns in the parent; with it, the credentials that the child
-- starts `run_pw_backend_child` with.
pub data Init : Type 0 where
  exits : Init
  returns : (parent child : Credentials) → Init

abbrev pub with_child : Credentials → Option Credentials → Init
with_child child none = exits
with_child child (some parent) = returns parent child

-- shadow.c; the first flag is the result of `spawn_comm_child`.
unfoldable pub initialize_shadow : Bool → Grants → Credentials → Init
unfolding drop_root
initialize_shadow spawned grants c =
    if not (c.uid.effective == 0)
    then exits
    else if not spawned
    then exits
    else with_child c (drop_root grants c)

-- pam.c
unfoldable pub initialize_pam : Bool → Credentials → Init
initialize_pam spawned c =
    if not (c.uid.real == c.uid.effective) || not (c.gid.real == c.gid.effective)
    then exits
    else if not spawned
    then exits
    else returns c c

-- `struct passwd`
pub record Passwd : Type 0 where
  pub pw_name : List ℕ
  pub pw_passwd : List ℕ

-- `getpwuid`, `getspnam` with the field `sp_pwdp`, and `crypt`.
pub record Database : Type 0 where
  pub getpwuid : ℕ → Option Passwd
  pub getspnam : List ℕ → Option (List ℕ)
  pub crypt : List ℕ → List ℕ → Option (List ℕ)

-- The encrypted password: "x" stands for one in the shadow file.
unfoldable pub find_encpw : Database → Passwd → Option (List ℕ)
unfolding text_eq
find_encpw db pwent =
    if text_eq pwent.pw_passwd (b'x' ∷ []) then db.getspnam pwent.pw_name else some pwent.pw_passwd

-- The child exits before its loop, or serves requests under credentials.
pub data Served : Type 0 where
  quits : Served
  serves : Credentials → (encpw : List ℕ) → Child → Served

unfoldable pub run_shadow_child : Database → Grants → Credentials → Requests → Served
unfolding find_encpw drop_root run_shadow
run_shadow_child db grants c rs = elim (db.getpwuid c.uid.real) [
  | none ↦ quits
  | some pwent ↦ elim (find_encpw db pwent) [
    | none ↦ quits
    | some encpw ↦ elim (drop_root grants c) [
      | none ↦ quits
      | some c' ↦ serves c' encpw (run_shadow (record { crypt = db.crypt; encpw = encpw }) rs)
    ]
  ]
]
