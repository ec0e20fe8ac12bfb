-- ===== src/Machine/Spinlock/Marking.antt =====
-- Of the processors that queue a gate at once, one at most gets to enqueue it.
use mpstu_bs.Prelude.{
  ℕ, ◌≡◌, refl, sym, ◌∙◌, inl, inr, ◌⊎◌, Bool, true, false, not, ◌&&◌, ◌||◌, ◌==◌, arith,
  Bool-cases,
}
use mpstu_bs.Machine.Spinlock.{
  Marks, Point, before, spinning, locked, tested, marked, returned, Access, call, spin, take, test,
  mark, unlock, Cores, move, Turn, turn, Run, start, go_on,
}

-- Between `lock` and `unlock`.
abbrev pub holding : Point → Bool
holding before = false
holding spinning = false
holding locked = true
holding (tested status) = true
holding (marked status) = true
holding (returned status) = false

-- The call found the gate free.
abbrev pub won : Point → Bool
won before = false
won spinning = false
won locked = false
won (tested status) = status
won (marked status) = status
won (returned status) = status

-- The call has set the flag.
abbrev pub set : Point → Bool
set before = false
set spinning = false
set locked = false
set (tested status) = false
set (marked status) = true
set (returned status) = true

-- Behind the test the flag is what the test saw.
abbrev pub Sees : Point → Bool → Type 0
Sees before flag = Unit
Sees spinning flag = Unit
Sees locked flag = Unit
Sees (tested status) flag = status ≡ not flag
Sees (marked status) flag = Unit
Sees (returned status) flag = Unit

pub record IsGuarded (s : Cores) : Type 0 where
  pub shut : (i : ℕ) → holding (s.at i) ≡ true → s.marks.gate_lock ≡ 1
  pub one_holds : (i j : ℕ) → holding (s.at i) ≡ true → holding (s.at j) ≡ true → i ≡ j
  pub flagged : (i : ℕ) → set (s.at i) ≡ true → s.marks.queue_flag ≡ true
  pub sight : (i : ℕ) → Sees (s.at i) s.marks.queue_flag
  pub one_won : (i j : ℕ) → won (s.at i) ≡ true → won (s.at j) ≡ true → i ≡ j

-- A processor other than the one that moves is where it was.
move_other : (f : ℕ → Point) (i j : ℕ) (p : Point) → (i == j) ≡ false → move f i p j ≡ f j
move_other f i j p e = rw e refl

move_self : (f : ℕ → Point) (i j : ℕ) (p : Point) → (i == j) ≡ true → move f i p j ≡ p
move_self f i j p e = rw e refl

-- What a change of one processor needs.
record Fits (s : Cores) (i : ℕ) (m : Marks) (p : Point) : Type 0 where
  lock_self : holding p ≡ true → m.gate_lock ≡ 1
  lock_other : (j : ℕ) → (i == j) ≡ false → holding (s.at j) ≡ true → m.gate_lock ≡ 1
  alone : (j : ℕ) → (i == j) ≡ false → holding p ≡ true → holding (s.at j) ≡ true → ⊥
  flag_self : set p ≡ true → m.queue_flag ≡ true
  flag_other : s.marks.queue_flag ≡ true → m.queue_flag ≡ true
  sees_self : Sees p m.queue_flag
  sees_other : (j : ℕ) → (i == j) ≡ false → Sees (s.at j) m.queue_flag
  won_alone : (j : ℕ) → (i == j) ≡ false → won p ≡ true → won (s.at j) ≡ true → ⊥

same_of : (i j : ℕ) → (i == j) ≡ true → i ≡ j
same_of i j e = ground arith

Fits-IsGuarded :
    (s : Cores) (i : ℕ) (m : Marks) (p : Point)
    → IsGuarded s
    → Fits s i m p
    → IsGuarded (record { marks = m; at = move s.at i p })
Fits-IsGuarded s i m p v f = record {
  shut = λ j h. elim (Bool-cases (i == j)) [
    | inl e ↦ f.lock_self (rw e at h)
    | inr e ↦ f.lock_other j e (rw e at h)
  ];
  one_holds = λ j k h g. elim (Bool-cases (i == j)) [
    | inl e ↦ elim (Bool-cases (i == k)) [
      | inl d ↦ sym (same_of i j e) ∙ same_of i k d
      | inr d ↦ absurd (f.alone k d (rw e at h) (rw d at g))
    ]
    | inr e ↦ elim (Bool-cases (i == k)) [
      | inl d ↦ absurd (f.alone j e (rw d at g) (rw e at h))
      | inr d ↦ v.one_holds j k (rw e at h) (rw d at g)
    ]
  ];
  flagged = λ j h. elim (Bool-cases (i == j)) [
    | inl e ↦ f.flag_self (rw e at h)
    | inr e ↦ f.flag_other (v.flagged j (rw e at h))
  ];
  sight = λ j. elim (Bool-cases (i == j)) [
    | inl e ↦ rw e f.sees_self
    | inr e ↦ rw e (f.sees_other j e)
  ];
  one_won = λ j k h g. elim (Bool-cases (i == j)) [
    | inl e ↦ elim (Bool-cases (i == k)) [
      | inl d ↦ sym (same_of i j e) ∙ same_of i k d
      | inr d ↦ absurd (f.won_alone k d (rw e at h) (rw d at g))
    ]
    | inr e ↦ elim (Bool-cases (i == k)) [
      | inl d ↦ absurd (f.won_alone j e (rw d at g) (rw e at h))
      | inr d ↦ v.one_won j k (rw e at h) (rw d at g)
    ]
  ];
}

differ : (i j : ℕ) → (i == j) ≡ false → i ≡ j → ⊥
differ i j e d = ground arith

won-cases : (p : Point) → won p ≡ true → (holding p ≡ true) ⊎ (set p ≡ true)
won-cases before h = cc
won-cases spinning h = cc
won-cases locked h = cc
won-cases (tested status) h = inl refl
won-cases (marked status) h = inl refl
won-cases (returned status) h = inr refl

Sees-free : (p : Point) (flag : Bool) → holding p ≡ false → Sees p flag
Sees-free before flag h = tt
Sees-free spinning flag h = tt
Sees-free locked flag h = tt
Sees-free (tested status) flag h = cc
Sees-free (marked status) flag h = tt
Sees-free (returned status) flag h = tt

module _ (s : Cores) (v : IsGuarded s) (i : ℕ) where
  -- While a processor holds the lock, another does not.
  others_free : (j : ℕ) → holding (s.at i) ≡ true → (i == j) ≡ false → holding (s.at j) ≡ false
  others_free j h e = elim (Bool-cases (holding (s.at j))) [
    | inl g ↦ absurd (differ i j e (v.one_holds i j h g))
    | inr g ↦ g
  ]

  Access-Fits :
      {p0 : Point} {m : Marks} {p : Point} → s.at i ≡ p0 → Access s.marks p0 m p → Fits s i m p
  Access-Fits e call = record {
    lock_self = λ h. cc;
    lock_other = λ j d h. v.shut j h;
    alone = λ j d h g. cc;
    flag_self = λ h. cc;
    flag_other = λ h. h;
    sees_self = tt;
    sees_other = λ j d. v.sight j;
    won_alone = λ j d h g. cc;
  }
  Access-Fits e (spin busy) = record {
    lock_self = λ h. refl;
    lock_other = λ j d h. refl;
    alone = λ j d h g. cc;
    flag_self = λ h. cc;
    flag_other = λ h. h;
    sees_self = tt;
    sees_other = λ j d. v.sight j;
    won_alone = λ j d h g. cc;
  }
  Access-Fits e (take free) = record {
    lock_self = λ h. refl;
    lock_other = λ j d h. refl;
    alone = λ j d h g. (let one = v.shut j g in ground arith);
    flag_self = λ h. cc;
    flag_other = λ h. h;
    sees_self = tt;
    sees_other = λ j d. v.sight j;
    won_alone = λ j d h g. cc;
  }
  Access-Fits e test = record {
    lock_self = λ h. v.shut i (rw e refl);
    lock_other = λ j d h. v.shut j h;
    alone = λ j d h g. differ i j d (v.one_holds i j (rw e refl) g);
    flag_self = λ h. cc;
    flag_other = λ h. h;
    sees_self = refl;
    sees_other = λ j d. v.sight j;
    won_alone = λ j d h g. elim (won-cases (s.at j) g) [
      | inl held ↦ differ i j d (v.one_holds i j (rw e refl) held)
      | inr done ↦ (let flag = v.flagged j done in ground arith)
    ];
  }
  Access-Fits e mark = record {
    lock_self = λ h. v.shut i (rw e refl);
    lock_other = λ j d h. v.shut j h;
    alone = λ j d h g. differ i j d (v.one_holds i j (rw e refl) g);
    flag_self = λ h. refl;
    flag_other = λ h. refl;
    sees_self = tt;
    sees_other = λ j d. Sees-free (s.at j) true (others_free j (rw e refl) d);
    won_alone = λ j d h g. differ i j d (v.one_won i j (rw e h) g);
  }
  Access-Fits e unlock = record {
    lock_self = λ h. cc;
    lock_other = λ j d h. (let free = others_free j (rw e refl) d in cc);
    alone = λ j d h g. cc;
    flag_self = λ h. v.flagged i (rw e refl);
    flag_other = λ h. h;
    sees_self = tt;
    sees_other = λ j d. v.sight j;
    won_alone = λ j d h g. differ i j d (v.one_won i j (rw e h) g);
  }

Turn-IsGuarded : {s t : Cores} → IsGuarded s → Turn s t → IsGuarded t
Turn-IsGuarded {s} v (turn i {m = m} {p = p} a) =
    Fits-IsGuarded s i m p v (Access-Fits s v i refl a)

Run-IsGuarded : {flag : Bool} {s : Cores} → Run flag s → IsGuarded s
Run-IsGuarded start = record {
  shut = λ i h. cc;
  one_holds = λ i j h g. cc;
  flagged = λ i h. cc;
  sight = λ i. tt;
  one_won = λ i j h g. cc;
}
Run-IsGuarded (go_on r t) = Turn-IsGuarded (Run-IsGuarded r) t

-- However the accesses of any number of processors interleave: no two are between `lock` and
-- `unlock`, and at most one of the calls of `set_queued` finds the gate free.
pub set_queued_once :
    {flag : Bool} {s : Cores} (i j : ℕ)
    → Run flag s
    → ((holding (s.at i) && holding (s.at j)) || (won (s.at i) && won (s.at j))) ≡ true
    → i ≡ j
set_queued_once {s} i j r both =
    let v = Run-IsGuarded r in
    elim (Bool-cases (holding (s.at i) && holding (s.at j))) [
      | inl held ↦ v.one_holds i j (ground arith) (ground arith)
      | inr free ↦ v.one_won i j (ground arith) (ground arith)
    ]
