-- ===== src/Tasks/Users.antt =====
-- kernel/src/sys/sys_setuid.c and sys_setgid.c: who can become the superuser.
use beeos.Prelude.{ℕ, ◌≡◌, ◌≢◌, refl, sym, ◌∙◌, List, [], ◌∷◌, arith}
use beeos.Tasks.{Ids, sys_setuid}

-- None of the three numbers is that of the superuser.
pub record IsPlain (t : Ids) : Type 0 where
  pub uid : t.uid ≢ 0
  pub euid : t.euid ≢ 0
  pub suid : t.suid ≢ 0

-- The numbers after a sequence of calls.
pub after : List ℕ → Ids → Ids
unfolding sys_setuid
after [] t = t
after (uid ∷ uids) t = after uids (sys_setuid uid t).1

sys_setuid-kept :
    (uid : ℕ) (t : Ids)
    → t.euid ≢ 0
    → ((sys_setuid uid t).1.uid ≡ t.uid) × ((sys_setuid uid t).1.suid ≡ t.suid)
unfolding sys_setuid
sys_setuid-kept uid t ne = (ground arith, ground arith)

sys_setuid-euid : (uid : ℕ) (t : Ids) → IsPlain t → (sys_setuid uid t).1.euid ≢ 0
unfolding sys_setuid
sys_setuid-euid uid t p = λ e. ground (arith, e, p.uid, p.euid, p.suid)

sys_setuid-IsPlain : (uid : ℕ) (t : Ids) → IsPlain t → IsPlain (sys_setuid uid t).1
sys_setuid-IsPlain uid t p =
    let (u, s) = sys_setuid-kept uid t p.euid in
    record {
      uid = λ e. p.uid (sym u ∙ e);
      euid = sys_setuid-euid uid t p;
      suid = λ e. p.suid (sym s ∙ e);
    }

-- A task none of whose numbers is that of the superuser does not get it by any sequence of calls of
-- `sys_setuid`.
pub after-IsPlain : (uids : List ℕ) (t : Ids) → IsPlain t → IsPlain (after uids t)
unfolding after
after-IsPlain [] t p = p
after-IsPlain (uid ∷ uids) t p =
    after-IsPlain uids (sys_setuid uid t).1 (sys_setuid-IsPlain uid t p)

-- A call that the superuser makes with another number gives the privilege up for ever.
pub after-sys_setuid :
    (uid : ℕ) (uids : List ℕ) (t : Ids) → t.euid ≡ 0 → uid ≢ 0 → IsPlain (after (uid ∷ uids) t)
unfolding after sys_setuid
after-sys_setuid uid uids t root ne =
    let gone : (sys_setuid uid t).1 ≡ record { uid = uid; euid = uid; suid = uid } = rw root refl in
    after-IsPlain uids (sys_setuid uid t).1 (rw gone (record { uid = ne; euid = ne; suid = ne }))
