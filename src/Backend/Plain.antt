-- ===== src/Backend/Plain.antt =====
-- The credentials of the two processes once the password check is set up.
use swaylock.Base.{
  ℕ, ◌≡◌, refl, sym, ap, subst, ◌≢◌, ◌⊎◌, inl, inr, Bool, true, false, not, ◌&&◌, Option, none,
  some, List, arith, ◌==◌, if◌then◌else◌, Option-cases,
}
use swaylock.Backend.{Requests, run_shadow}
use swaylock.Backend.Privileges.{
  Credentials, all_ids, setuid, setgid, Grants, drop_root, Init, exits, returns, initialize_shadow,
  Database, Passwd, with_child, find_encpw, Served, quits, serves, run_shadow_child,
}

-- All ids are the real ones of the start, the user is not root, and cannot become root.
pub record IsPlain (c c' : Credentials) : Type 0 where
  pub user : c'.uid ≡ all_ids c.uid.real
  pub group : c'.gid ≡ all_ids c.gid.real
  pub not_root : c.uid.real ≢ 0
  pub for_good : (granted : Bool) → setuid granted 0 c' ≡ none

abbrev plain : Credentials → Credentials
plain c = record { uid = all_ids c.uid.real; gid = all_ids c.gid.real }

plain-IsPlain : (c : Credentials) → c.uid.real ≢ 0 → IsPlain c (plain c)
unfolding setuid
plain-IsPlain c h = record {
  user = refl;
  group = refl;
  not_root = h;
  for_good = λ granted. ground arith;
}

-- Whether root can be dropped for good.
abbrev pub droppable : Grants → Credentials → Bool
droppable grants c = grants.gid && (grants.uid && not (c.uid.real == 0))

-- For a process that starts as root.
drop_root_lem :
    (grants : Grants) (c : Credentials)
    → c.uid.effective ≡ 0
    → drop_root grants c ≡ (if droppable grants c then some (plain c) else none)
unfolding drop_root setgid setuid
drop_root_lem grants c root = ground arith

-- What comes of the parent.
pub data Parent (ok : Bool) (c : Credentials) : Init → Type 0 where
  gave_up : ok ≡ false → Parent ok c exits
  went_on : {parent : Credentials} → ok ≡ true → IsPlain c parent → Parent ok c (returns parent c)

-- What comes of the child: it has quit for one of three reasons, or it has looked up the encrypted
-- password and serves the requests with it.
pub data Serving (db : Database) (ok : Bool) (c : Credentials) (rs : Requests)
    : Served → Type 0 where
  no_user : db.getpwuid c.uid.real ≡ none → Serving db ok c rs quits
  no_password :
      {pwent : Passwd}
      → db.getpwuid c.uid.real ≡ some pwent
      → find_encpw db pwent ≡ none
      → Serving db ok c rs quits
  not_dropped : ok ≡ false → Serving db ok c rs quits
  serving :
      {pwent : Passwd} {encpw : List ℕ} {c' : Credentials}
      → db.getpwuid c.uid.real ≡ some pwent
      → find_encpw db pwent ≡ some encpw
      → ok ≡ true
      → IsPlain c c'
      → Serving db ok c rs
          (serves c' encpw (run_shadow (record { crypt = db.crypt; encpw = encpw }) rs))

ne_of_false : (n : ℕ) (a b : Bool) → (a && (b && not (n == 0))) ≡ true → n ≢ 0
ne_of_false n a b h e = ground (arith, h, e)

initialize_shadow-Parent :
    (spawned : Bool) (grants : Grants) (c : Credentials)
    → c.uid.effective ≡ 0
    → Parent (spawned && droppable grants c) c (initialize_shadow spawned grants c)
unfolding initialize_shadow
initialize_shadow-Parent false grants c root =
    subst (Parent false c) (sym (ground arith)) (gave_up refl)
initialize_shadow-Parent true grants c root =
    subst (Parent (droppable grants c) c) (sym becomes) (go (droppable grants c) refl)
  where
    kept : Bool → Option Credentials
    kept ok = if ok then some (plain c) else none

    becomes : initialize_shadow true grants c ≡ with_child c (kept (droppable grants c))
    becomes = simp root (ap (with_child c) (drop_root_lem grants c root))

    go : (ok : Bool) → ok ≡ droppable grants c → Parent ok c (with_child c (kept ok))
    go false e = gave_up refl
    go true e =
        went_on refl (plain-IsPlain c (ne_of_false c.uid.real grants.gid grants.uid (sym e)))

run_shadow_child-Serving :
    (db : Database) (grants : Grants) (c : Credentials) (rs : Requests)
    → c.uid.effective ≡ 0
    → Serving db (droppable grants c) c rs (run_shadow_child db grants c rs)
unfolding run_shadow_child
run_shadow_child-Serving db grants c rs root =
    subst (λ o. Serving db (droppable grants c) c rs (result o)) (sym (drop_root_lem grants c root))
      (go (droppable grants c) refl (Option-cases (db.getpwuid c.uid.real)))
  where
    result : Option Credentials → Served
    result dropped = elim (db.getpwuid c.uid.real) [
      | none ↦ quits
      | some pwent ↦ elim (find_encpw db pwent) [
        | none ↦ quits
        | some encpw ↦ elim dropped [
          | none ↦ quits
          | some c' ↦ serves c' encpw (run_shadow (record { crypt = db.crypt; encpw = encpw }) rs)
        ]
      ]
    ]

    kept : Bool → Option Credentials
    kept ok = if ok then some (plain c) else none

    go :
        (ok : Bool)
        → ok ≡ droppable grants c
        → (db.getpwuid c.uid.real ≡ none)
          ⊎ ((pwent : Passwd) × (db.getpwuid c.uid.real ≡ some pwent))
        → Serving db ok c rs (result (kept ok))
    go ok e (inl missing) = subst (Serving db ok c rs) (sym (rw missing refl)) (no_user missing)
    go false e (inr (pwent, there)) =
        subst (Serving db false c rs) (sym (rw there (stops (find_encpw db pwent))))
          (not_dropped refl)
      where
        stops :
            (found : Option (List ℕ)) → (elim found [ none ↦ quits | some encpw ↦ quits ]) ≡ quits
        stops none = refl
        stops (some encpw) = refl
    go true e (inr (pwent, there)) = elim (Option-cases (find_encpw db pwent)) [
      | inl missing ↦
          subst (Serving db true c rs) (sym (rw (there, missing) refl)) (no_password there missing)
      | inr (encpw, found) ↦ subst (Serving db true c rs) (sym (rw (there, found) refl)) (
          serving there found refl
            (plain-IsPlain c (ne_of_false c.uid.real grants.gid grants.uid (sym e))))
    ]

-- On a process that runs as root, the parent and the child of the shadow backend, whatever the
-- system grants to each: where `spawn_comm_child` succeeds, the grants are there and the real user is
-- not root, the parent goes on with all its ids the real ones and cannot become root again, and
-- otherwise it exits; the child quits because the user is unknown, the encrypted password is missing
-- or root cannot be dropped, or it serves the requests with the password that it looked up, with all
-- ids the real ones and no way back to root.
pub shadow-IsPlain :
    (spawned : Bool) (grants grants' : Grants) (db : Database) (c : Credentials) (rs : Requests)
    → c.uid.effective ≡ 0
    → Parent (spawned && droppable grants c) c (initialize_shadow spawned grants c)
      × Serving db (droppable grants' c) c rs (run_shadow_child db grants' c rs)
shadow-IsPlain spawned grants grants' db c rs root =
    (initialize_shadow-Parent spawned grants c root, run_shadow_child-Serving db grants' c rs root)
