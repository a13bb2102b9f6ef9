-- ===== src/Base/Steps.antt =====
-- Several steps of a relation, one after another.
module _ {S : Type 0} where
  pub data Steps (R : S → S → Type 0) : S → S → Type 0 where
    stop : {s : S} → Steps R s s
    step : {s t u : S} → R s t → Steps R t u → Steps R s u

  pub Steps-trans : {R : S → S → Type 0} {s t u : S} → Steps R s t → Steps R t u → Steps R s u
  Steps-trans stop more = more
  Steps-trans (step st steps) more = step st (Steps-trans steps more)
