-- ===== src/Tests/Publishing.antt =====
-- services/analyzer/app/features/charts/service.py on two accounts and one chart.
use fraud_analyzer_engine.Prelude.{String, ◌≡◌, refl, true, false, not, none, some, List, [], ◌∷◌}
use fraud_analyzer_engine.Prelude.Outcome.{ok}
use fraud_analyzer_engine.Dict
use fraud_analyzer_engine.Accounts.{User, admin, analyst, is_admin}
use fraud_analyzer_engine.Publishing.{
  AuditAction, QueryChart, Db, approve, approve_read, approve_write, cancel_write, chart_for_owner,
  publish_write, apply_if, pending_chart,
}
use fraud_analyzer_engine.Publishing.Transitions.{
  IsWellFormed, Move, publishing, cancelling, approving, perform, run, committed,
}
use fraud_analyzer_engine.Publishing.Races.{
  is_decided, At, run-IsWellFormed, run-freeze, approve_read_lem, approve_write_lem,
}
use fraud_analyzer_engine.Publishing.Approvals.{error_of, approve_lem}
use fraud_analyzer_engine.Publishing.Histories.{Reach, start, read, write, Reach-private}

abbrev ann : User
ann = record {
  id = "ann";
  email = "ann@x";
  full_name = "Ann";
  password_hash = "h";
  role = analyst;
  is_active = true;
  must_change_password = false;
  temp_password_expires_at = none;
  failed_login_count = 0;
  locked_until = none;
  last_login_at = none;
  created_by = none;
}

abbrev bea : User
bea = record ann { id = "bea"; email = "bea@x"; role = admin }

-- a definition is the text of a query
abbrev draft : QueryChart String
draft = record {
  id = "c";
  query_id = "q";
  definition = "select 1";
  is_public = false;
  published_by = none;
  published_at = none;
  publish_requested_by = none;
  publish_requested_at = none;
  publish_rejected_by = none;
  publish_rejected_at = none;
  publish_rejected_reason = none;
}

abbrev waiting : QueryChart String
waiting = record draft { publish_requested_by = some "ann"; publish_requested_at = some 7 }

abbrev public : QueryChart String
public = record draft { is_public = true; published_by = some "bea"; published_at = some 8 }

abbrev holding : QueryChart String → Db String
holding c = record {
  charts = ("c", c) ∷ [];
  queries = ("q", record { owner_id = some "ann" }) ∷ [];
  audit_log = [];
  redrawn = [];
}

-- what an analyst asks for waits, and an administrator's approval publishes it in their name
asked_and_approved :
    Dict.get "c"
      (run (publishing ann 7 draft ∷ approving bea 9 waiting ∷ []) (holding draft)).charts
    ≡ some (record draft { is_public = true; published_by = some "ann"; published_at = some 9 })
unfolding run perform publish_write approve_write apply_if Dict.get Dict.set
asked_and_approved = refl

abbrev moves : List (Move String)
moves = publishing ann 7 draft ∷ approving bea 9 waiting ∷ cancelling ann waiting ∷ []

run-IsWellFormed_example : At "c" IsWellFormed (run moves (holding draft))
unfolding Dict.get
run-IsWellFormed_example = run-IsWellFormed "c" moves (holding draft) refl (record {
  published_at = refl;
  published_by = refl;
  requested_by = refl;
  no_request = refl;
  rejected_public = refl;
  rejected_pending = refl;
})

-- Ann asks, withdraws, and asks again by a read from before the withdrawal was written.
abbrev asking : Move String
asking = publishing ann 7 draft

abbrev withdrawing : Move String
withdrawing = cancelling ann draft

abbrev asking_again : Move String
asking_again = publishing ann 9 waiting

abbrev after_asking : Db String
after_asking = perform asking (holding draft)

abbrev after_all : Db String
after_all = perform asking_again (perform withdrawing after_asking)

asked_again :
    Dict.get "c" after_all.charts
    ≡ some (record draft { publish_requested_by = some "ann"; publish_requested_at = some 9 })
unfolding perform publish_write cancel_write apply_if Dict.get Dict.set
asked_again = refl

ann_alone : Reach (λ (d : String). d) (λ user. not (is_admin user)) (holding draft) after_all []
unfolding perform publish_write cancel_write apply_if chart_for_owner Dict.get Dict.set
ann_alone = write [] asking_again [] (
    write (asking_again ∷ []) withdrawing [] (
      read asking_again
        (write (withdrawing ∷ []) asking []
          (read withdrawing (read asking start refl ("c", refl)) refl ("c", refl)))
        refl ("c", refl)))

Reach-private_example : At "c" (λ (c : QueryChart String). c.is_public ≡ false) after_all
unfolding Dict.get
Reach-private_example = Reach-private (λ d. d) "c" (holding draft) after_all [] refl ann_alone

run-freeze_example :
    At "c"
      (λ (c : QueryChart String). (c.is_public ≡ true) × (c.published_by ≡ some "bea"))
      (run (Move.unpublishing ann public ∷ []) (holding public))
unfolding Dict.get
run-freeze_example =
    run-freeze "c" "bea" (Move.unpublishing ann public ∷ []) (holding public) refl (refl, refl)

approve_read_lem_example :
    (is_decided (approving bea 0 waiting) ≡ true)
    × (Dict.get "c" (holding waiting).charts ≡ some waiting)
    × (waiting.definition ≡ "select 1")
unfolding approve_read pending_chart Dict.get
approve_read_lem_example =
    approve_read_lem (λ d. d) (holding waiting) "c" bea "select 1" waiting refl

approve_write_lem_example :
    (approve_write bea 9 waiting (holding waiting)
      ≡ ok (perform (approving bea 9 waiting) (holding waiting)))
    × (Dict.get "c" (perform (approving bea 9 waiting) (holding waiting)).charts
        ≡ some
            (record draft { is_public = true; published_by = some "ann"; published_at = some 9 }))
unfolding Dict.get
approve_write_lem_example = approve_write_lem bea 9 waiting waiting (holding waiting) refl

-- Bea has read and compared `select 1`, and `select 2` is there when the approval is written
published_unseen :
    (approve_read (λ d. d) (holding waiting) "c" bea "select 1" ≡ ok waiting)
    × (Dict.get "c"
          (perform
            (approving bea 9 waiting)
            (holding (record waiting { definition = "select 2" }))).charts
        ≡ some (record draft {
          definition = "select 2";
          is_public = true;
          published_by = some "ann";
          published_at = some 9;
        }))
unfolding approve_read pending_chart perform approve_write apply_if Dict.get Dict.set
published_unseen = (refl, refl)

approve_lem_example :
    (error_of (approve (λ d. d) (holding waiting) "c" bea "select 1" 9) ≡ none)
    × (Dict.get "c"
          (committed
            (holding waiting)
            (approve (λ d. d) (holding waiting) "c" bea "select 1" 9)).charts
        ≡ some
            (record draft { is_public = true; published_by = some "ann"; published_at = some 9 }))
    × ((committed
          (holding waiting)
          (approve (λ d. d) (holding waiting) "c" bea "select 1" 9)).audit_log
        ≡ record { actor = "bea"; action = AuditAction.chart_publish_approved; target = "c" } ∷ [])
    × ((committed
          (holding waiting)
          (approve (λ d. d) (holding waiting) "c" bea "select 1" 9)).redrawn
        ≡ "q" ∷ [])
unfolding Dict.get
approve_lem_example =
    approve_lem (λ d. d) (holding waiting) "c" "c" bea "select 1" 9 waiting refl refl
