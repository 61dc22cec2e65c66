-- ===== src/SurveyMonitor/Ratio.antt =====
-- What core/src/survey_monitor.cpp publishes after any samples.
use betterconn.Prelude.{◌≡◌, refl, true, false, ◌⊎◌, inl, inr, List, [], ◌∷◌, Bool-cases, arith}
use betterconn.Double.{Double}
use betterconn.SurveyMonitor.{
  Survey, SurveySample, Previous, new_survey, no_previous, observe, publish, contention_active,
  contention_busy, has_contention,
}

module _ ⦃d : Double⦄ where
  open d use {Real, lt, le, div, milli}

  -- The rounds of the loop, the first sample first
  unfoldable pub observe_all : List SurveySample → Survey × Previous → Survey × Previous
  unfolding observe
  observe_all [] state = state
  observe_all (sample ∷ rest) state = observe_all rest (observe sample state)

  -- The ratio, where there is one, is that of a share that is not negative and one that is positive.
  abbrev pub IsMeasured : Survey → Type 0
  IsMeasured survey =
      (survey.has_data ≡ false)
      ⊎ ((busy active : Real) × (survey.busy_ratio ≡ div busy active)
          × (lt (milli 0) active ≡ true)
          × (le (milli 0) busy ≡ true))

  publish-IsMeasured :
      (sample : SurveySample) (prev : Previous) (survey : Survey)
      → IsMeasured survey
      → IsMeasured (publish sample prev survey)
  unfolding publish
  publish-IsMeasured sample prev survey m = elim (Bool-cases (has_contention sample prev)) [
    | inl there ↦ rw there (
        inr (
          contention_busy sample prev,
          contention_active sample prev,
          refl,
          ground arith,
          ground arith,
        ))
    | inr missing ↦ rw missing m
  ]

  pub observe-IsMeasured :
      (sample : SurveySample) (state : Survey × Previous)
      → IsMeasured state.0
      → IsMeasured (observe sample state).0
  unfolding observe
  observe-IsMeasured sample (survey, prev) m = elim (Bool-cases sample.valid) [
    | inl valid ↦ rw valid (publish-IsMeasured sample prev survey m)
    | inr invalid ↦ rw invalid m
  ]

  observe_all-keeps :
      (samples : List SurveySample) (state : Survey × Previous)
      → IsMeasured state.0
      → IsMeasured (observe_all samples state).0
  unfolding observe_all
  observe_all-keeps [] state m = m
  observe_all-keeps (sample ∷ rest) state m =
      observe_all-keeps rest (observe sample state) (observe-IsMeasured sample state m)

  new-IsMeasured : IsMeasured new_survey
  unfolding new_survey
  new-IsMeasured = inl refl

  -- Whatever samples the driver gives, from the start of the monitor on: while there is data, the
  -- busy ratio is the quotient of a busy time that is not negative and a positive active time.
  pub observe_all-IsMeasured :
      (samples : List SurveySample) → IsMeasured (observe_all samples (new_survey, no_previous)).0
  observe_all-IsMeasured samples =
      observe_all-keeps samples (new_survey, no_previous) new-IsMeasured

  observe-has_data :
      (sample : SurveySample) (state : Survey × Previous)
      → state.0.has_data ≡ true
      → (observe sample state).0.has_data ≡ true
  unfolding observe publish
  observe-has_data sample (survey, prev) h = ground arith

  -- Once there is data there is data for good, whatever samples follow.
  pub observe_all-has_data :
      (samples : List SurveySample) (state : Survey × Previous)
      → state.0.has_data ≡ true
      → (observe_all samples state).0.has_data ≡ true
  unfolding observe_all
  observe_all-has_data [] state h = h
  observe_all-has_data (sample ∷ rest) state h =
      observe_all-has_data rest (observe sample state) (observe-has_data sample state h)
