-- ===== src/Websocket/Slots.antt =====
-- What the limiter promises to every task, whenever tasks arrive and finish.
use nestjs_fastify_nx.Common.{
  ℕ, ◌+◌, ◌-◌, ◌≤◌, String, ◌≡◌, ◌⊎◌, ◌≢◌, refl, sym, ap, ◌∙◌, Bool, true, false, List, [], ◌∷◌,
  ◌++◌, arith, inl, inr, ltb, length, length-append, append_assoc, append_nil, if◌then◌else◌,
}
use nestjs_fastify_nx.Websocket.Limiter.{
  System, acquire, wake, release, begin, arrive, resume, finish,
}

abbrev pub idle : System
idle = record {
  limiter = record { active = 0; queue = [] };
  arrived = [];
  started = [];
  running = [];
}

-- A task arrives, or one that holds a slot finishes.
pub data Step (max_concurrent : ℕ) (s : System) : System → Type 0 where
  arrives : (task : String) → Step max_concurrent s (arrive max_concurrent task s)
  finishes :
      (task : String) (before after : List String)
      → s.running ≡ before ++ task ∷ after
      → Step max_concurrent s (finish (before ++ after) s)

pub data Reach (max_concurrent : ℕ) : System → Type 0 where
  start : Reach max_concurrent idle
  next : {s t : System} → Reach max_concurrent s → Step max_concurrent s t → Reach max_concurrent t

-- A slot for each running task and none beyond the limit, no task waits while a slot is free, and
-- tasks start in the order of their arrival.
pub record IsFair (max_concurrent : ℕ) (s : System) : Type 0 where
  pub counted : s.limiter.active ≡ length s.running
  pub bounded : s.limiter.active ≤ max_concurrent
  pub busy : (s.limiter.queue ≡ []) ⊎ (s.limiter.active ≡ max_concurrent)
  pub in_order : s.started ++ s.limiter.queue ≡ s.arrived

length-snoc : (xs : List String) (x : String) → length (xs ++ x ∷ []) ≡ length xs + 1
length-snoc xs x = length-append xs (x ∷ [])

length-removed :
    (before : List String) (task : String) (after : List String)
    → length (before ++ task ∷ after) ≡ length (before ++ after) + 1
length-removed before task after =
    omega (arith, length-append before (task ∷ after), length-append before after)

-- A task waits only where no slot is free.
free-empty :
    (max_concurrent : ℕ) (s : System)
    → IsFair max_concurrent s
    → ltb s.limiter.active max_concurrent ≡ true
    → s.limiter.queue ≡ []
free-empty max_concurrent s fair h = elim fair.busy [ inl empty ↦ empty | inr full ↦ ground arith ]

begin-IsFair :
    (max_concurrent : ℕ) (task : String) (s : System) (b : Bool)
    → ltb s.limiter.active max_concurrent ≡ b
    → IsFair max_concurrent s
    → IsFair max_concurrent (
        begin task s (
          if b
          then (true, record (s.limiter) { active = s.limiter.active + 1 })
          else (false, record (s.limiter) { queue = s.limiter.queue ++ task ∷ [] })))
unfolding begin
begin-IsFair max_concurrent task s true h fair =
    let empty = free-empty max_concurrent s fair h in
    record {
      counted = omega (arith, fair.counted, length-snoc s.running task);
      bounded = ground arith;
      busy = inl empty;
      in_order =
          ap (λ q. (s.started ++ task ∷ []) ++ q) empty
          ∙ (append_nil (s.started ++ task ∷ [])
              ∙ ap (λ xs. xs ++ task ∷ [])
                  (sym (append_nil s.started)
                    ∙ (ap (λ q. s.started ++ q) (sym empty) ∙ fair.in_order)));
    }
begin-IsFair max_concurrent task s false h fair = record {
  counted = fair.counted;
  bounded = fair.bounded;
  busy = inr (ground arith);
  in_order =
      sym (append_assoc s.started s.limiter.queue (task ∷ []))
      ∙ ap (λ xs. xs ++ task ∷ []) fair.in_order;
}

module _ (max_concurrent : ℕ) (task : String) (before after : List String) (s : System)
    (held : s.running ≡ before ++ task ∷ after) (fair : IsFair max_concurrent s) where
  slots : s.limiter.active ≡ length (before ++ after) + 1
  slots = fair.counted ∙ (ap length held ∙ length-removed before task after)

  resume-IsFair :
      (queue : List String)
      → s.limiter.queue ≡ queue
      → IsFair max_concurrent (resume s (before ++ after) (wake (s.limiter.active - 1) queue))
  unfolding resume wake
  resume-IsFair [] q = record {
    counted = omega (arith, slots);
    bounded = omega (arith, fair.bounded);
    busy = inl refl;
    in_order = ap (λ r. s.started ++ r) (sym q) ∙ fair.in_order;
  }
  resume-IsFair (x ∷ rest) q = record {
    counted = omega (arith, slots, length-snoc (before ++ after) x);
    bounded = omega (arith, slots, fair.bounded);
    busy = elim fair.busy [
      | inl empty ↦ absurd (cons-ne-nil x rest (sym q ∙ empty))
      | inr full ↦ inr (omega (arith, slots, full))
    ];
    in_order =
        append_assoc s.started (x ∷ []) rest ∙ (ap (λ r. s.started ++ r) (sym q) ∙ fair.in_order);
  }
    where
      cons-ne-nil : (x : String) (rest : List String) → x ∷ rest ≢ []
      cons-ne-nil x rest e = cc

Step-IsFair :
    (max_concurrent : ℕ) (s t : System)
    → IsFair max_concurrent s
    → Step max_concurrent s t
    → IsFair max_concurrent t
unfolding arrive acquire finish release
Step-IsFair max_concurrent s t fair (arrives task) =
    begin-IsFair max_concurrent task s (ltb s.limiter.active max_concurrent) refl fair
Step-IsFair max_concurrent s t fair (finishes task before after held) =
    resume-IsFair max_concurrent task before after s held fair s.limiter.queue refl

-- Whatever the order in which tasks arrive and finish: there is one slot for each running task and
-- there are at most as many as the limit, a task waits only while all of them are taken, and tasks
-- start in the order of their arrival, so that those that wait are the last that arrived.
pub Reach-IsFair :
    (max_concurrent : ℕ) (s : System) → Reach max_concurrent s → IsFair max_concurrent s
Reach-IsFair max_concurrent s start = record {
  counted = refl;
  bounded = omega arith;
  busy = inl refl;
  in_order = refl;
}
Reach-IsFair max_concurrent t (next {s} r step) =
    Step-IsFair max_concurrent s t (Reach-IsFair max_concurrent s r) step
