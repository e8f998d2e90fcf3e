-- ===== src/Server/Accounts/Modes.antt =====
-- The modes that an account may use.
use monitor_backend.Base.{
  ◌≡◌, refl, String, Bool, true, false, ◌&&◌, ◌||◌, List, [], ◌∷◌, ◌++◌, ◌==◌, string_eq, eq_iff,
  arith, Bool-cases, inl, inr, ◌∙◌, sym, subst,
}
use monitor_backend.BossCycle.{contains_session_id}
use monitor_backend.Server.{User}
use monitor_backend.Server.Accounts.{authorized_modes, allows, mode_if}
use monitor_backend.Server.Accounts.Admin.{is_known_mode}

contains-append :
    (xs ys : List String) (x : String)
    → contains_session_id (xs ++ ys) x ≡ (contains_session_id xs x || contains_session_id ys x)
unfolding contains_session_id
contains-append [] ys x = refl
contains-append (y ∷ xs) ys x = ground (arith, contains-append xs ys x)

eq_swap : (s t : String) → (s == t) ≡ (t == s)
eq_swap s t = ground (arith, eq_iff s t, eq_iff t s)

contains-mode_if :
    (b : Bool) (s mode : String) → contains_session_id (mode_if b s) mode ≡ (b && mode == s)
unfolding contains_session_id
contains-mode_if true s mode = ground (arith, eq_swap s mode)
contains-mode_if false s mode = refl

-- The list of the enabled modes.
abbrev enabled_modes : User → List String
enabled_modes u =
    mode_if u.dead "dead"
    ++ (mode_if u.live "live"
        ++ (mode_if u.temple "temple"
            ++ (mode_if u.follow_heal "follow_heal" ++ mode_if u.monitor "monitor")))

enabled :
    (u : User) (mode : String)
    → contains_session_id (enabled_modes u) mode ≡ (
        u.dead && mode == "dead"
        || (u.live && mode == "live"
            || (u.temple && mode == "temple"
                || (u.follow_heal && mode == "follow_heal" || u.monitor && mode == "monitor"))))
enabled u mode = ground (
  arith,
  contains-append (mode_if u.dead "dead")
      (mode_if u.live "live"
        ++ (mode_if u.temple "temple"
            ++ (mode_if u.follow_heal "follow_heal" ++ mode_if u.monitor "monitor")))
      mode,
  contains-append (mode_if u.live "live")
      (mode_if u.temple "temple"
        ++ (mode_if u.follow_heal "follow_heal" ++ mode_if u.monitor "monitor"))
      mode,
  contains-append (mode_if u.temple "temple")
      (mode_if u.follow_heal "follow_heal" ++ mode_if u.monitor "monitor") mode,
  contains-append (mode_if u.follow_heal "follow_heal") (mode_if u.monitor "monitor") mode,
  contains-mode_if u.dead "dead" mode,
  contains-mode_if u.live "live" mode,
  contains-mode_if u.temple "temple" mode,
  contains-mode_if u.follow_heal "follow_heal" mode,
  contains-mode_if u.monitor "monitor" mode,
)

abbrev Told : User → String → Type 0
Told u mode = contains_session_id (authorized_modes u) mode ≡ (is_known_mode mode && allows u mode)

-- A text is one of the five modes or none of them.
mode_cases :
    (P : String → Type 0)
    → P "dead"
    → P "live"
    → P "temple"
    → P "follow_heal"
    → P "monitor"
    → ((mode : String)
        → (mode == "dead") ≡ false
        → (mode == "live") ≡ false
        → (mode == "temple") ≡ false
        → (mode == "follow_heal") ≡ false
        → (mode == "monitor") ≡ false
        → P mode)
    → (mode : String) → P mode
mode_cases P a b c d e other mode =
    let at : (s : String) → P s → (mode == s) ≡ true → P mode =
      λ s p t. subst P (sym ((eq_iff mode s).0 t)) p in
    elim (Bool-cases (mode == "dead")) [
      | inl t ↦ at "dead" a t
      | inr n1 ↦ elim (Bool-cases (mode == "live")) [
        | inl t ↦ at "live" b t
        | inr n2 ↦ elim (Bool-cases (mode == "temple")) [
          | inl t ↦ at "temple" c t
          | inr n3 ↦ elim (Bool-cases (mode == "follow_heal")) [
            | inl t ↦ at "follow_heal" d t
            | inr n4 ↦ elim (Bool-cases (mode == "monitor")) [
              | inl t ↦ at "monitor" e t
              | inr n5 ↦ other mode n1 n2 n3 n4 n5
            ]
          ]
        ]
      ]
    ]

told :
    (u : User) (mode : String)
    → contains_session_id ("dead" ∷ "live" ∷ "temple" ∷ "follow_heal" ∷ "monitor" ∷ []) mode
      ≡ is_known_mode mode
    → contains_session_id (enabled_modes u) mode
      ≡ (is_known_mode mode && allows (record u { is_super_admin = false }) mode)
    → Told u mode
unfolding authorized_modes allows
told u mode k e = elim (Bool-cases u.is_super_admin) [
  | inl t ↦ rw t (k ∙ ground arith)
  | inr n ↦ rw n e
]

-- The modes that an account is told of are those among the five that the server lets its devices run in.
pub authorized_modes-allows :
    (u : User) (mode : String)
    → contains_session_id (authorized_modes u) mode ≡ (is_known_mode mode && allows u mode)
unfolding allows contains_session_id
authorized_modes-allows u =
    mode_cases (Told u) (told u "dead" refl (enabled u "dead" ∙ ground arith))
      (told u "live" refl (enabled u "live" ∙ ground arith))
      (told u "temple" refl (enabled u "temple" ∙ ground arith))
      (told u "follow_heal" refl (enabled u "follow_heal" ∙ ground arith))
      (told u "monitor" refl (enabled u "monitor" ∙ ground arith))
      (λ mode n1 n2 n3 n4 n5.
        told u mode
          (ground (
            arith,
            eq_swap mode "dead",
            eq_swap mode "live",
            eq_swap mode "temple",
            eq_swap mode "follow_heal",
            eq_swap mode "monitor",
          ))
          (enabled u mode ∙ ground arith))
