-- ===== src/Performance/Reviews/View.antt =====
-- src/modules/performance/reviews.service.ts, view: what of a review its reader sees.
pub mod Privacy
use ai_hr_sytem.Base.{
  ℕ, Bool, true, false, Option, none, some, List, [], ◌∷◌, map, ◌==◌, if◌then◌else◌, select, Action,
  forbidden, pure, throw, gets, ◌>>=◌, ◌>>◌, throw_if,
}
use ai_hr_sytem.Performance.Defs.{
  CyclePhase, phase_eq, Review, ReviewFeedback, FeedbackStatus, FeedbackAnswers, PerformanceStore,
  AuthUser,
}
use ai_hr_sytem.Performance.Reviews.{Role, ReviewDetail, find_review, role_for}

-- One entry of the feedback: the whole row with its giver, or what the reviewee is shown of it.
pub data FeedbackEntry : Type 0 where
  full : ReviewFeedback → FeedbackEntry
  anonymous : ℕ → FeedbackStatus → Option FeedbackAnswers → Option ℕ → FeedbackEntry

pub record ReviewView : Type 0 where
  pub detail : ReviewDetail
  pub feedback : List FeedbackEntry

abbrev pub is_submitted : ReviewFeedback → Bool
is_submitted f = elim f.status [ FeedbackStatus.submitted ↦ true | _ ↦ false ]

abbrev pub anonymised : ReviewFeedback → FeedbackEntry
anonymised f = FeedbackEntry.anonymous f.id f.status f.answers f.submitted_at

abbrev pub without_note : Review → Review
without_note r = record r { calibration_note = none }

abbrev pub without_ratings : Review → Review
without_ratings r = record r {
  calibration_note = none;
  manager_assessment = none;
  manager_rating = none;
  final_rating = none;
}

-- The reviewee, before the close and after it.
unfoldable pub employee_view : ReviewDetail → List ReviewFeedback → ReviewView
employee_view d fb =
    if phase_eq d.cycle.phase CyclePhase.closed
    then record {
      detail = record d { review = without_note d.review };
      feedback = map anonymised (select is_submitted fb);
    }
    else record { detail = record d { review = without_ratings d.review }; feedback = [] }

unfoldable pub view_as :
    Role → ReviewDetail → List ReviewFeedback → Action PerformanceStore ReviewView
view_as Role.no_role d fb = throw (forbidden "Forbidden")
view_as Role.employee d fb = pure (employee_view d fb)
view_as Role.reviewer d fb = pure (record {
  detail = record d { review = without_note d.review };
  feedback = map FeedbackEntry.full fb;
})
view_as Role.hr d fb = pure (record { detail = d; feedback = map FeedbackEntry.full fb })

-- `view`
unfoldable pub view : ℕ → AuthUser → Action PerformanceStore ReviewView
view id actor = do
  d ← find_review id
  es ← gets (λ (s : PerformanceStore). s.employees)
  fb ←
      gets (λ (s : PerformanceStore). select (λ (f : ReviewFeedback). f.review_id == id) s.feedback)
  view_as (role_for es d actor) d fb
