-- ===== src/Log/Update.antt =====
-- src/config.cc: which loggers are registered after the listener of `LogConfInit` has run.
use sylar_framework.Prelude.{
  ℕ, ◌≡◌, refl, ap, ◌∙◌, inl, inr, Bool, true, false, not, ◌&&◌, ◌||◌, List, [], ◌∷◌, Option, none,
  some, arith, Option-cases,
}
use sylar_framework.Prelude.Text.{Text, equal, equal_iff}
use sylar_framework.Log.Loggers.{
  Names, Manager, find_name, erase_name, make_logger, new_logger, del_logger, LoggerConf, add_conf,
  delete_all, add_all, on_change,
}

abbrev is_some : {A : Type 0} → Option A → Bool
is_some none = false
is_some (some a) = true

-- Whether a name is registered, and whether some configurations have it.
abbrev pub is_known : Text → Names → Bool
is_known s ns = is_some (find_name s ns)

abbrev pub names : Text → List LoggerConf → Bool
names s [] = false
names s (c ∷ cs) = equal c.name s || names s cs

is_known-erase_name :
    (s t : Text) (ns : Names) → is_known s (erase_name t ns) ≡ (is_known s ns && not (equal t s))
unfolding find_name erase_name
is_known-erase_name s t [] = refl
is_known-erase_name s t ((k, a) ∷ ns) =
    ground (arith, equal_iff k t, equal_iff k s, equal_iff t s, is_known-erase_name s t ns)

is_known-delete_all :
    (s : Text) (old_val : List LoggerConf) (m : Manager)
    → is_known s (delete_all old_val m).loggers ≡ (is_known s m.loggers && not (names s old_val))
unfolding delete_all
is_known-delete_all s [] m = ground arith
is_known-delete_all s (c ∷ cs) m =
    ground (
      arith,
      is_known-delete_all s cs (del_logger c.name m),
      is_known-erase_name s c.name m.loggers,
    )

is_known-new_logger :
    (s t : Text) (m : Manager)
    → is_known s (new_logger t m).0.loggers ≡ (equal t s || is_known s m.loggers)
unfolding find_name make_logger
is_known-new_logger s t m = elim (Option-cases (find_name t m.loggers)) [
  | inl e ↦ rw e (ground arith)
  | inr (a, e) ↦ rw e (ground (arith, equal_iff t s, e))
]

loggers-add_conf : (c : LoggerConf) (p : Manager × ℕ) → (add_conf c p).loggers ≡ p.0.loggers
unfolding add_conf
loggers-add_conf c (m, a) = refl

is_known-add_all :
    (s : Text) (new_val : List LoggerConf) (m : Manager)
    → is_known s (add_all new_val m).loggers ≡ (names s new_val || is_known s m.loggers)
unfolding add_all
is_known-add_all s [] m = refl
is_known-add_all s (c ∷ cs) m =
    is_known-add_all s cs (add_conf c (new_logger c.name m))
    ∙ ap (λ ns. names s cs || is_known s ns) (loggers-add_conf c (new_logger c.name m))
    ∙ ground (arith, is_known-new_logger s c.name m)

-- After a change of the configured set a name is registered exactly when the new set has it, or it
-- was registered before and the old set does not have it.
pub is_known-on_change :
    (s : Text) (old_val new_val : List LoggerConf) (m : Manager)
    → is_known s (on_change old_val new_val m).loggers
      ≡ (names s new_val || (is_known s m.loggers && not (names s old_val)))
unfolding on_change
is_known-on_change s old_val new_val m =
    is_known-add_all s new_val (delete_all old_val m)
    ∙ ap (λ b. names s new_val || b) (is_known-delete_all s old_val m)
