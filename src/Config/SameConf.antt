-- ===== src/Config/SameConf.antt =====
-- src/log.cc: `operator==` of the configurations, by which `SetValue` tells whether a value is new, and
-- `operator<`, by which a set of them is in order.
use sylar_framework.Prelude.{◌≡◌, refl, ap, ◌↔◌, Bool, true, false, ◌&&◌, List, [], ◌∷◌}
use sylar_framework.Prelude.Text.{equal_iff}
use sylar_framework.Log.Loggers.{AppenderConf, LoggerConf}
use sylar_framework.Config.Confs.{same_appender, same_appenders, same_conf}

both_true : {a b : Bool} → (a && b) ≡ true → (a ≡ true) × (b ≡ true)
both_true {a = true} h = (refl, h)
both_true {a = false} h = absurd (cc h)

and_true : {a b : Bool} → a ≡ true → b ≡ true → (a && b) ≡ true
and_true h g = rw (h, g) refl

same_appender_iff : (a b : AppenderConf) → (same_appender a b ≡ true) ↔ (a ≡ b)
unfolding same_appender
same_appender_iff a b = (
  λ h.
      let p = both_true h in
      let q = both_true p.1 in
      let t = (equal_iff a.type_ b.type_).0 p.0 in
      let f = (equal_iff a.file b.file).0 q.0 in
      let g = (equal_iff a.formatter b.formatter).0 q.1 in
      λ i. record { type_ = t i; file = f i; formatter = g i },
  λ e. and_true ((equal_iff a.type_ b.type_).1 (ap (λ c. c.type_) e)) (
      and_true ((equal_iff a.file b.file).1 (ap (λ c. c.file) e))
        ((equal_iff a.formatter b.formatter).1 (ap (λ c. c.formatter) e))),
)

same_appenders_iff : (as_ bs : List AppenderConf) → (same_appenders as_ bs ≡ true) ↔ (as_ ≡ bs)
unfolding same_appenders
same_appenders_iff [] [] = (λ h. refl, λ e. refl)
same_appenders_iff [] (b ∷ bs) = (λ h. cc h, λ e. cc e)
same_appenders_iff (a ∷ rest) [] = (λ h. cc h, λ e. cc e)
same_appenders_iff (a ∷ rest) (b ∷ bs) = (
  λ h.
      let p = both_true h in
      let x = (same_appender_iff a b).0 p.0 in
      let y = (same_appenders_iff rest bs).0 p.1 in cc (x, y),
  λ e. and_true ((same_appender_iff a b).1 (cc e)) ((same_appenders_iff rest bs).1 (cc e)),
)

-- Two configurations are equal for `operator==` exactly when they are the same, name, level and
-- appenders in their order.
pub same_conf_iff : (a b : LoggerConf) → (same_conf a b ≡ true) ↔ (a ≡ b)
unfolding same_conf
same_conf_iff a b = (
  λ h.
      let p = both_true h in
      let q = both_true p.1 in
      let n = (equal_iff a.name b.name).0 p.0 in
      let l = (equal_iff a.level b.level).0 q.0 in
      let s = (same_appenders_iff a.appenders b.appenders).0 q.1 in
      λ i. record { name = n i; level = l i; appenders = s i },
  λ e. and_true ((equal_iff a.name b.name).1 (ap (λ c. c.name) e)) (
      and_true ((equal_iff a.level b.level).1 (ap (λ c. c.level) e))
        ((same_appenders_iff a.appenders b.appenders).1 (ap (λ c. c.appenders) e))),
)
