-- ===== src/NetController/Permission.antt =====
-- For whom `main` of tnc/tcos-net-controller.c runs a command.
use tcos.Base.{
  ℕ, true, false, ◌&&◌, ◌≡◌, ◌↔◌, ◌⊎◌, inl, inr, refl, Bytes, codes, List, [], ◌∷◌, str_eq,
  str_eq_iff, ◌==◌, ==_iff, arith, Bool-cases,
}
use tcos.Host.{M, Host, Trace, print, done, pure, emit}
use tcos.NetController.Routes.{Network}
use tcos.NetController.Main.{User, group, check_groups, check_user, run_command, main}

-- Some element satisfies the predicate.
pub data Any {A : Type 0} (P : A → Type 0) : List A → Type 0 where
  here : {x : A} {xs : List A} → P x → Any P (x ∷ xs)
  there : {x : A} {xs : List A} → Any P xs → Any P (x ∷ xs)

-- The program runs as root, for root itself or for a member of the group.
pub record Permitted (u : User) : Type 0 where
  pub as_root : u.euid ≡ 0
  pub member : (u.uid ≡ 0) ⊎ Any (λ g. g ≡ group) u.groups

check_groups-true : (euid : ℕ) (gs : List Bytes) → check_groups euid gs true ≡ true
unfolding check_groups
check_groups-true euid [] = refl
check_groups-true euid (g ∷ gs) = elim (Bool-cases (str_eq g group && euid == 0)) [
  | inl e ↦ rw e (check_groups-true euid gs)
  | inr e ↦ rw e (check_groups-true euid gs)
]

check_groups-Any :
    (euid : ℕ) (gs : List Bytes)
    → check_groups euid gs false ≡ true
    → (euid ≡ 0) × Any (λ g. g ≡ group) gs
unfolding check_groups
check_groups-Any euid [] k = cc k
check_groups-Any euid (g ∷ gs) k = elim (Bool-cases (str_eq g group && euid == 0)) [
  | inl e ↦ (ground arith, here ((str_eq_iff g group).0 (ground arith)))
  | inr e ↦ let (root, rest) = check_groups-Any euid gs (rw e at k) in (root, there rest)
]

Any-check_groups :
    (euid : ℕ) {gs : List Bytes}
    → euid ≡ 0
    → Any (λ g. g ≡ group) gs
    → check_groups euid gs false ≡ true
unfolding check_groups
Any-check_groups euid root (here {x} {xs} e) =
    rw ((str_eq_iff x group).1 e, (==_iff euid 0).1 root) (check_groups-true euid xs)
Any-check_groups euid root (there {x} {xs} a) = elim (Bool-cases (str_eq x group && euid == 0)) [
  | inl e ↦ rw e (check_groups-true euid xs)
  | inr e ↦ rw e (Any-check_groups euid root a)
]

pub check_user-Permitted : (u : User) → (check_user u ≡ true) ↔ Permitted u
unfolding check_user
check_user-Permitted u = (permitted, passes)
  where
    permitted : check_user u ≡ true → Permitted u
    permitted k = elim (Bool-cases (u.uid == 0 && u.euid == 0)) [
      | inl e ↦ record { as_root = ground arith; member = inl (ground arith) }
      | inr e ↦
          let (root, some_group) = check_groups-Any u.euid u.groups (rw e at k) in
          record { as_root = root; member = inr some_group }
    ]

    passes : Permitted u → check_user u ≡ true
    passes p = elim p.member [
      | inl root ↦ ground (arith, root, p.as_root)
      | inr a ↦ elim (Bool-cases (u.uid == 0 && u.euid == 0)) [
        | inl e ↦ rw e
        | inr e ↦ rw e (Any-check_groups u.euid p.as_root a)
      ]
    ]

-- What becomes of a command for a user who is permitted, or not.
pub answer : {u : User} → Dec (Permitted u) → M ℕ → M ℕ
answer (yes p) m t = m t
answer (no refused) m t = done 1 (print (codes "denied") ∷ t)

-- A command line runs its command exactly for root and the members of the group "tcos", where the
-- program runs as root. Anyone else is told "denied" and gets nothing done.
pub main_decides :
    (h : Host) (n : Network) (u : User) (cmd : Bytes) (args : List Bytes) (t : Trace)
    (permitted : Dec (Permitted u))
    → main h n u (cmd ∷ args) t ≡ answer permitted (run_command h n cmd args) t
unfolding main emit pure answer
main_decides h n u cmd args t (yes p) = rw ((check_user-Permitted u).1 p) refl
main_decides h n u cmd args t (no refused) = elim (Bool-cases (check_user u)) [
  | inl e ↦ absurd (refused ((check_user-Permitted u).0 e))
  | inr e ↦ rw e refl
]
