-- ===== src/EPoller/Registration.antt =====
-- The `pooling_` flag of a channel against the kernel's interest list.
use conex.Prelude.{
  ℕ, ◌≡◌, refl, ◌∙◌, inl, inr, Bool, true, false, none, some, List, [], ◌∷◌, if◌then◌else◌,
  Bool-cases,
}
use conex.Channel.{
  Mask, Channel, Change, none_event, is_none_event, change_events, enable_reading, disable_all,
}
use conex.EPoller.{Epoll, choose_op, update_channel, change, changes}

module _ (e : Epoll) where
  open e use {Kernel, interest, epoll_ctl, add_absent, mod_present, del_present}

  -- The kernel watches the descriptor for the events of the channel exactly if `pooling_` is set.
  abbrev pub InSync : Channel → Kernel → Type 0
  InSync c k = interest k c.fd ≡ (if c.pooling then some c.events else none)

  -- A call of `updateChannel` when the kernel still has the events of before.
  pub record Updated (r : Bool × Channel × Kernel) (fd : ℕ) : Type 0 where
    pub accepted : r.0 ≡ true
    pub in_sync : InSync r.1 r.2
    pub same_fd : r.1.fd ≡ fd

  update_channel-Updated :
      (c : Channel) (old : Mask) (k : Kernel)
      → interest k c.fd ≡ (if c.pooling then some old else none)
      → Updated (update_channel e c k) c.fd
  unfolding update_channel choose_op
  update_channel-Updated c old k h = elim (Bool-cases c.pooling) [
    | inl p ↦ elim (Bool-cases (is_none_event c)) [
      | inl n ↦
          let d = del_present c.fd c.events old k (rw p at h) in
          rw (p, n) (record { accepted = d.0; in_sync = d.1; same_fd = refl })
      | inr n ↦
          let m = mod_present c.fd c.events old k (rw p at h) in
          rw (p, n) (record { accepted = m.0; in_sync = m.1; same_fd = refl })
    ]
    | inr p ↦
        let a = add_absent c.fd c.events k (rw p at h) in
        rw p (record { accepted = a.0; in_sync = a.1; same_fd = refl })
  ]

  pub change-Updated :
      (ch : Change) (c : Channel) (k : Kernel) → InSync c k → Updated (change e ch c k) c.fd
  unfolding change change_events
  change-Updated enable_reading c k h =
      update_channel-Updated (change_events enable_reading c) c.events k h
  change-Updated ch c k h = update_channel-Updated (change_events ch c) c.events k h

  abbrev pub AllTrue : List Bool → Type 0
  AllTrue [] = Unit {0}
  AllTrue (b ∷ bs) = (b ≡ true) × AllTrue bs

  -- From a channel that is in step with the kernel, as a new one is, no sequence of the five
  -- functions makes a call that `epoll_ctl` refuses, and the channel stays in step: the kernel
  -- watches for its events exactly while `pooling_` is set.
  pub changes-InSync :
      (chs : List Change) (c : Channel) (k : Kernel)
      → InSync c k
      → let (answers, c', k') = changes e chs c k in AllTrue answers × InSync c' k' × (c'.fd ≡ c.fd)
  unfolding changes
  changes-InSync [] c k h = (tt, h, refl)
  changes-InSync (ch ∷ chs) c k h =
      let u = change-Updated ch c k h in
      let r = changes-InSync chs (change e ch c k).1 (change e ch c k).2 u.in_sync in
      ((u.accepted, r.0), r.1, r.2 ∙ u.same_fd)

  -- `removeChannel` on a channel that the poller does not have, as after a second removal, puts it
  -- there: the kernel then holds a pointer to the channel, for no events.
  pub disable_all_absent :
      (c : Channel) (k : Kernel)
      → InSync c k
      → c.pooling ≡ false
      → let (answer, c', k') = change e disable_all c k in
        (c'.pooling ≡ true) × (interest k' c.fd ≡ some none_event)
  unfolding change update_channel choose_op change_events
  disable_all_absent c k h p = rw p (refl, (add_absent c.fd none_event k (rw p at h)).1)
