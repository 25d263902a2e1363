-- ===== src/EPoller/Table.antt =====
-- A kernel that behaves as is documented, for examples.
use conex.Prelude.{
  ℕ, ◌≡◌, refl, Bool, true, false, Option, none, some, ◌==◌, if◌then◌else◌, ==_refl,
}
use conex.Channel.{Mask}
use conex.EPoller.{Op, Epoll, op_add, op_mod, op_del}

-- The interest list as a function.
abbrev pub Table : Type 0
Table = ℕ → Option Mask

abbrev pub put : ℕ → Option Mask → Table → Table
put fd m k i = if fd == i then m else k i

unfoldable pub ctl : Op → ℕ → Mask → Table → Bool × Table
ctl op_add fd m k = elim (k fd) [ none ↦ (true, put fd (some m) k) | some old ↦ (false, k) ]
ctl op_mod fd m k = elim (k fd) [ none ↦ (false, k) | some old ↦ (true, put fd (some m) k) ]
ctl op_del fd m k = elim (k fd) [ none ↦ (false, k) | some old ↦ (true, put fd none k) ]

pub ctl_add :
    (fd : ℕ) (m : Mask) (k : Table)
    → k fd ≡ none
    → ((ctl op_add fd m k).0 ≡ true) × ((ctl op_add fd m k).1 fd ≡ some m)
unfolding ctl
ctl_add fd m k h = rw (h, ctl) (refl, rw (==_refl fd))

pub ctl_add_refused :
    (fd : ℕ) (m old : Mask) (k : Table) → k fd ≡ some old → ctl op_add fd m k ≡ (false, k)
unfolding ctl
ctl_add_refused fd m old k h = rw (h, ctl) refl

pub ctl_mod :
    (fd : ℕ) (m old : Mask) (k : Table)
    → k fd ≡ some old
    → ((ctl op_mod fd m k).0 ≡ true) × ((ctl op_mod fd m k).1 fd ≡ some m)
unfolding ctl
ctl_mod fd m old k h = rw (h, ctl) (refl, rw (==_refl fd))

pub ctl_del :
    (fd : ℕ) (m old : Mask) (k : Table)
    → k fd ≡ some old
    → ((ctl op_del fd m k).0 ≡ true) × ((ctl op_del fd m k).1 fd ≡ none)
unfolding ctl
ctl_del fd m old k h = rw (h, ctl) (refl, rw (==_refl fd))

abbrev pub table_epoll : Epoll
table_epoll = record {
  Kernel = Table;
  interest = λ k fd. k fd;
  epoll_ctl = ctl;
  add_absent = ctl_add;
  add_present = ctl_add_refused;
  mod_present = ctl_mod;
  del_present = ctl_del;
}

abbrev pub nothing : Table
nothing fd = none
