-- ===== src/ServerC/System/Outbox.antt =====
-- The transactional outbox: a coupon row and the report of it are written by one transaction.
use mathlib.Core.List.{Memᴰ}
use mathlib.Core.List.Memᴰ
use coupon_nestjs.Common.Broker.{Broker}
use coupon_nestjs.Prelude.{
  true, any, Distinct, eq_of_Distinct, int_beq_comm, Mem-find?, ◌∙◌, sym, inl, inr, Distinct-snoc,
  int_eq, nat_eq, ◌==◌, Bool-cases, ℕ, ℤ, ◌≡◌, refl, ap, List, [], ◌∷◌, ◌++◌, map, String, Bool,
  Option, none, some,
}
use coupon_nestjs.Common.Statuses.{
  UserCouponStatus, CouponIssueResultStatus, is_pending, is_success,
}
use coupon_nestjs.Common.Payloads.{CouponIssueRequestPayload, CouponIssueResultPayload}
use coupon_nestjs.Common.Cache.{Redis}
use coupon_nestjs.Effect.{Result}
use coupon_nestjs.ServerC.Schema.{UserCouponRow, OutboxRow, Db}
use coupon_nestjs.ServerC.Engine.{Engine, set_used, set_published, has_version}
use coupon_nestjs.ServerC.Issue.Unique.{IsUnique, same_id}
use coupon_nestjs.ServerC.System.Invariants.{IsSound, step-IsSound}
use mathlib.Core.Bool.{and-eq-true_iff}
use coupon_nestjs.ServerC.World.{World, ResultLog}
use coupon_nestjs.ServerC.Poller.Logged.{IsLogged, same_outbox_id}
use coupon_nestjs.ServerC.Poller.Cycle.{Polled, poll_lem}
use coupon_nestjs.ServerC.Issue.{Moment, code_or_placeholder}
use coupon_nestjs.ServerC.Issue.Process.{Processed, decided, repeated, failed, process_lem}
use coupon_nestjs.ServerC.Issue.Spec.{
  row_status, Recorded, Decides, taken, known, inactive, depleted, issued,
}
use coupon_nestjs.ServerC.Redeem.{RedeemCommand, RedeemResult}
use coupon_nestjs.ServerC.Redeem.Refinement.{
  Redeemed, missing, masked, replayed, refused, won, fault, redeem_lem,
}
use coupon_nestjs.ServerC.System.{Call, deliver, redeem_at, poll_at, step, run}

-- A use keeps the report true: the coupon was issued.
abbrev pub as_reported : UserCouponStatus → CouponIssueResultStatus
as_reported UserCouponStatus.success = CouponIssueResultStatus.success
as_reported UserCouponStatus.used = CouponIssueResultStatus.success
as_reported UserCouponStatus.sold_out = CouponIssueResultStatus.sold_out
as_reported UserCouponStatus.failed = CouponIssueResultStatus.failed

-- A coupon code is reported of an issued coupon only.
abbrev pub reported_code : CouponIssueResultStatus → String → Option String
reported_code CouponIssueResultStatus.success code = some code
reported_code CouponIssueResultStatus.sold_out code = none
reported_code CouponIssueResultStatus.failed code = none

pub record Reports (c : UserCouponRow) (o : OutboxRow) : Type 0 where
  pub user : o.payload.user_id ≡ c.user_id
  pub event : o.payload.event_id ≡ c.event_id
  pub coupon_type : o.payload.coupon_type_id ≡ c.coupon_type_id
  pub status : o.payload.status ≡ as_reported c.status
  pub code : o.payload.coupon_code ≡ reported_code (as_reported c.status) c.code
  pub key : o.aggregate_id ≡ o.payload.request_id

-- One report to each row, in one order.
abbrev pub Paired : List UserCouponRow → List OutboxRow → Type 0
Paired [] [] = Unit
Paired [] (o ∷ os) = ⊥
Paired (c ∷ cs) [] = ⊥
Paired (c ∷ cs) (o ∷ os) = Reports c o × Paired cs os

Paired-snoc :
    (cs : List UserCouponRow) (os : List OutboxRow) (c : UserCouponRow) (o : OutboxRow)
    → Paired cs os
    → Reports c o
    → Paired (cs ++ c ∷ []) (os ++ o ∷ [])
Paired-snoc [] [] c o p r = (r, tt)
Paired-snoc [] (x ∷ os) c o p r = elim p [ ]
Paired-snoc (x ∷ cs) [] c o p r = elim p [ ]
Paired-snoc (x ∷ cs) (y ∷ os) c o p r = (p.0, Paired-snoc cs os c o p.1 r)

-- The pairs that an update of rows leaves.
Paired-map :
    (f : UserCouponRow → UserCouponRow) (cs : List UserCouponRow) (os : List OutboxRow)
    → ((c : UserCouponRow) (o : OutboxRow) → Memᴰ c cs → Reports c o → Reports (f c) o)
    → Paired cs os
    → Paired (map f cs) os
Paired-map f [] [] h p = tt
Paired-map f [] (o ∷ os) h p = p
Paired-map f (c ∷ cs) [] h p = p
Paired-map f (c ∷ cs) (o ∷ os) h p =
    (h c o (Memᴰ.head refl) p.0, Paired-map f cs os (λ x y m. h x y (Memᴰ.tail m)) p.1)

Paired-mark :
    (f : OutboxRow → OutboxRow) (cs : List UserCouponRow) (os : List OutboxRow)
    → ((c : UserCouponRow) (o : OutboxRow) → Reports c o → Reports c (f o))
    → Paired cs os
    → Paired cs (map f os)
Paired-mark f [] [] h p = tt
Paired-mark f [] (o ∷ os) h p = p
Paired-mark f (c ∷ cs) [] h p = p
Paired-mark f (c ∷ cs) (o ∷ os) h p = (h c o p.0, Paired-mark f cs os h p.1)

-- The tables correspond, and what is published is in the topic.
pub record IsReported (db : Db) (log : ResultLog) : Type 0 where
  pub paired : Paired db.user_coupon db.outbox
  pub logged : IsLogged db.outbox log

Recorded-Paired :
    (request : CouponIssueRequestPayload) (at : Moment) (status : CouponIssueResultStatus)
    (code : Option String) (db db' : Db)
    → Recorded request at status code db db'
    → as_reported (row_status status) ≡ status
    → code ≡ reported_code status (code_or_placeholder code request.request_id)
    → Paired db.user_coupon db.outbox
    → Paired db'.user_coupon db'.outbox
Recorded-Paired request at status code db db' r same same_code p = rw r.after (
    Paired-snoc db.user_coupon db.outbox _ _ p (record {
      user = refl;
      event = refl;
      coupon_type = refl;
      status = sym same;
      code = rw same same_code;
      key = refl;
    }))

only_one : {x o : OutboxRow} → Memᴰ x (o ∷ []) → x ≡ o
only_one (Memᴰ.head e) = e
only_one (Memᴰ.tail m) = elim m [ ]

Recorded-IsLogged :
    (request : CouponIssueRequestPayload) (at : Moment) (status : CouponIssueResultStatus)
    (code : Option String) (db db' : Db) (log : ResultLog)
    → Recorded request at status code db db'
    → IsLogged db.outbox log
    → IsLogged db'.outbox log
Recorded-IsLogged request at status code db db' log r h = rw r.after (record {
  ids = Distinct-snoc same_outbox_id db.outbox _ h.ids r.outbox_id_is_new;
  logged = λ x m done. elim (Memᴰ.append_cases db.outbox m) [
    | inl old ↦ h.logged x old done
    | inr new ↦ absurd (cc (ap (λ y. is_pending y.status) (only_one new), done))
  ];
})

module _ (request : CouponIssueRequestPayload) (at : Moment) where
  Recorded-IsReported :
      (status : CouponIssueResultStatus) (code : Option String) (db db' : Db) (log : ResultLog)
      → Recorded request at status code db db'
      → as_reported (row_status status) ≡ status
      → code ≡ reported_code status (code_or_placeholder code request.request_id)
      → IsReported db log
      → IsReported db' log
  Recorded-IsReported status code db db' log r same same_code h = record {
    paired = Recorded-Paired request at status code db db' r same same_code h.paired;
    logged = Recorded-IsLogged request at status code db db' log r h.logged;
  }

  Decides-IsReported :
      (db : Db) (flag : Bool) (db' : Db) (log : ResultLog)
      → Decides request at db flag db'
      → IsReported db log
      → IsReported db' log
  Decides-IsReported db flag db' log (known held f e) h = rw e h
  Decides-IsReported db flag db' log (inactive event found over f r) h =
      Recorded-IsReported CouponIssueResultStatus.failed none db db' log r refl refl h
  Decides-IsReported db flag db' log (depleted event row found active at_row empty f r) h =
      Recorded-IsReported CouponIssueResultStatus.sold_out none db db' log r refl refl h
  Decides-IsReported db flag db' log (issued event row found active at_row more f r) h =
      Recorded-IsReported CouponIssueResultStatus.success (some at.code) (taken row db) db' log r
        refl refl (record { paired = h.paired; logged = h.logged })

  Processed-IsReported :
      (w : World) (out : Result (Unit {0}) × World)
      → Processed request at w out
      → IsReported w.db w.log
      → IsReported out.1.db out.1.log
  Processed-IsReported w out (decided flag db' d e e' logs kept quiet) h =
      rw (e', logs) (Decides-IsReported w.db flag db' w.log d h)
  Processed-IsReported w out (repeated held e) h = rw (ap (λ p. p.1) e) h
  Processed-IsReported w out (failed e why other e') h = rw (ap (λ p. p.1) e') h

reported_of_success :
    (s : UserCouponStatus) → is_success s ≡ true → as_reported s ≡ CouponIssueResultStatus.success
reported_of_success UserCouponStatus.success h = refl
reported_of_success UserCouponStatus.used h = refl
reported_of_success UserCouponStatus.sold_out h = cc
reported_of_success UserCouponStatus.failed h = cc

-- The use of a coupon that was issued.
use-Reports :
    (now : ℕ) (row c : UserCouponRow) (o : OutboxRow) (rows : List UserCouponRow)
    → Distinct same_id rows
    → Memᴰ row rows
    → is_success row.status ≡ true
    → Memᴰ c rows
    → Reports c o
    → Reports (set_used row.user_coupon_id row.version now c) o
use-Reports now row c o rows d m success n r =
    elim (Bool-cases (has_version row.user_coupon_id row.version c)) [
      | inr other ↦ rw other r
      | inl hit ↦
          let one =
            eq_of_Distinct same_id rows (λ a b. int_beq_comm b.user_coupon_id a.user_coupon_id) d m
              n (((and-eq-true_iff _ _).0 hit).0) in
          let issued_once : as_reported c.status ≡ CouponIssueResultStatus.success =
            reported_of_success c.status (rw one at success) in
          rw hit (record {
            user = r.user;
            event = r.event;
            coupon_type = r.coupon_type;
            status = r.status ∙ issued_once;
            code = r.code ∙ ap (λ s. reported_code s c.code) issued_once;
            key = r.key;
          })
    ]

module _ (command : RedeemCommand) (now : ℕ) where
  Redeemed-IsReported :
      (db : Db) (r : Result RedeemResult) (db' : Db) (log : ResultLog)
      → Redeemed command now db (r, db')
      → IsUnique db
      → IsReported db log
      → IsReported db' log
  Redeemed-IsReported db r db' log (missing n e) u h = rw (ap (λ p. p.1) e) h
  Redeemed-IsReported db r db' log (masked row f n e) u h = rw (ap (λ p. p.1) e) h
  Redeemed-IsReported db r db' log (replayed row t o n e) u h = rw (ap (λ p. p.1) e) h
  Redeemed-IsReported db r db' log (refused row o n x e) u h = rw (ap (λ p. p.1) e) h
  Redeemed-IsReported db r db' log (fault x f e) u h = rw (ap (λ p. p.1) e) h
  Redeemed-IsReported db r db' log (won row o n success e) u h = rw (ap (λ p. p.1) e) (record {
    paired =
        Paired-map (set_used row.user_coupon_id row.version now) db.user_coupon db.outbox
          (λ c x m.
            use-Reports now row c x db.user_coupon u.ids (Mem-find? _ db.user_coupon o.found)
              success m)
          h.paired;
    logged = h.logged;
  })

mark-Reports :
    (ids : List ℤ) (now : ℕ) (c : UserCouponRow) (o : OutboxRow)
    → Reports c o
    → Reports c (set_published ids now o)
mark-Reports ids now c o r = elim (Bool-cases (any (λ id. o.outbox_event_id == id) ids)) [
  | inl listed ↦ rw listed (record {
    user = r.user;
    event = r.event;
    coupon_type = r.coupon_type;
    status = r.status;
    code = r.code;
    key = r.key;
  })
  | inr other ↦ rw other r
]

Polled-IsReported :
    (now : ℕ) (w : World) (out : Result (Unit {0}) × World)
    → Polled now w out
    → IsReported w.db w.log
    → IsReported out.1.db out.1.log
Polled-IsReported now w out p h = elim p.db_after [
  | inl e ↦ record { paired = rw e h.paired; logged = p.logged h.logged }
  | inr (ids, e) ↦ record {
    paired = rw e (
        Paired-mark (set_published ids now) w.db.user_coupon w.db.outbox (mark-Reports ids now)
          h.paired);
    logged = p.logged h.logged;
  }
]

module _ (em : Engine) (redis : Redis) (broker : Broker CouponIssueResultPayload)
    (ttl batch_size : ℕ) where
  step-IsReported :
      (call : Call) (w : World)
      → IsSound w.db
      → IsReported w.db w.log
      → let w' = step em redis broker ttl batch_size call w in IsReported w'.db w'.log
  unfolding step
  step-IsReported (deliver request at) w s h =
      Processed-IsReported request at w _ (process_lem request at em redis ttl w) h
  step-IsReported (redeem_at command now) w s h =
      Redeemed-IsReported command now w.db _ _ w.log (redeem_lem command now em w.db) s.unique h
  step-IsReported (poll_at now) w s h =
      Polled-IsReported now w _ (poll_lem em broker batch_size now w) h

  -- Any sequence of deliveries, redeem calls and poller cycles keeps, from a sound database on: the
  -- i-th outbox row reports the i-th coupon row, with its user, event, coupon type, outcome and, if it
  -- was issued, its code, and an outbox row that is no longer PENDING has its message in the topic.
  pub run-IsReported :
      (calls : List Call) (w : World)
      → IsSound w.db
      → IsReported w.db w.log
      → let w' = run em redis broker ttl batch_size calls w in IsReported w'.db w'.log
  run-IsReported [] w s h = h
  run-IsReported (call ∷ calls) w s h =
      run-IsReported calls _ (step-IsSound em redis broker ttl batch_size call w s)
        (step-IsReported call w s h)
