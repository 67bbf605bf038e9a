-- ===== src/Billing/Decode/Subjects.antt =====
-- internal/billing/event.go: the kinds of object that the handled types of event are about.
use glass_eqserver.Prelude.{
  ◌⊎◌, inl, inr, List, [], ◌∷◌, Bool-cases, bytes_eq, true, Bytes, codes, Option, some, bytes_eq→eq,
  ◌≡◌, refl, arith, if◌then◌else◌,
}
use glass_eqserver.Billing.Decode.{
  event_subject, one_of, Subject, session_types, invoice_types, subscription_types, refund_types,
  dispute_types,
}

-- One of the words.
abbrev pub Among : List Bytes → Bytes → Type 0
Among [] word = ⊥
Among (w ∷ words) word = (word ≡ w) ⊎ Among words word

-- Which kind of object the handled types are about, and the prefix of its IDs.
abbrev pub IsAbout : Bytes → Bytes → Bytes → Type 0
IsAbout word prefix kind =
    (Among
        (codes "checkout.session.completed"
          ∷ codes "checkout.session.async_payment_succeeded"
          ∷ codes "checkout.session.async_payment_failed"
          ∷ [])
        word
      × (prefix ≡ codes "cs_")
      × (kind ≡ codes "checkout.session"))
    ⊎ (Among (codes "invoice.paid" ∷ codes "invoice.payment_failed" ∷ codes "invoice.updated" ∷ [])
          word
        × (prefix ≡ codes "in_")
        × (kind ≡ codes "invoice"))
    ⊎ (Among (codes "customer.subscription.updated" ∷ codes "customer.subscription.deleted" ∷ [])
          word
        × (prefix ≡ codes "sub_")
        × (kind ≡ codes "subscription"))
    ⊎ (Among (codes "refund.created" ∷ codes "refund.updated" ∷ codes "refund.failed" ∷ []) word
        × (prefix ≡ codes "re_")
        × (kind ≡ codes "refund"))
    ⊎ (Among
          (codes "charge.dispute.created"
            ∷ codes "charge.dispute.updated"
            ∷ codes "charge.dispute.funds_withdrawn"
            ∷ codes "charge.dispute.closed"
            ∷ [])
          word
        × (prefix ≡ codes "du_")
        × (kind ≡ codes "dispute"))

one_of-Among : (words : List Bytes) (word : Bytes) → one_of words word ≡ true → Among words word
one_of-Among [] word h = cc
one_of-Among (w ∷ words) word h = elim (Bool-cases (bytes_eq word w)) [
  | inl same ↦ inl (bytes_eq→eq word w same)
  | inr differs ↦ inr (one_of-Among words word (ground arith))
]

-- What holds of each of the words.
abbrev All : (Bytes → Type 0) → List Bytes → Type 0
All P [] = Unit
All P (w ∷ words) = P w × All P words

All-at :
    (P : Bytes → Type 0) (words : List Bytes) (word : Bytes)
    → All P words
    → Among words word
    → P word
All-at P [] word h found = absurd found
All-at P (w ∷ words) word (h, rest) (inl same) = rw same h
All-at P (w ∷ words) word (h, rest) (inr found) = All-at P words word rest found

module _ (word prefix kind : Bytes) where
  -- One case of the switch, or the cases behind it.
  by_case :
      (words : List Bytes) (p k : Bytes) (others : Option Subject)
      → (if one_of words word then some (p, k) else others) ≡ some (prefix, kind)
      → (Among words word × (prefix ≡ p) × (kind ≡ k)) ⊎ (others ≡ some (prefix, kind))
  by_case words p k others h = elim (Bool-cases (one_of words word)) [
    | inl among ↦ inl (one_of-Among words word among, ground arith, ground arith)
    | inr behind ↦ inr (ground arith)
  ]

  pub subject-IsAbout : event_subject word ≡ some (prefix, kind) → IsAbout word prefix kind
  unfolding event_subject
  subject-IsAbout h = elim (by_case session_types (codes "cs_") (codes "checkout.session") _ h) [
    | inl x ↦ inl x
    | inr h1 ↦ elim (by_case invoice_types (codes "in_") (codes "invoice") _ h1) [
      | inl x ↦ inr (inl x)
      | inr h2 ↦ elim (by_case subscription_types (codes "sub_") (codes "subscription") _ h2) [
        | inl x ↦ inr (inr (inl x))
        | inr h3 ↦ elim (by_case refund_types (codes "re_") (codes "refund") _ h3) [
          | inl x ↦ inr (inr (inr (inl x)))
          | inr h4 ↦ elim (by_case dispute_types (codes "du_") (codes "dispute") _ h4) [
            | inl x ↦ inr (inr (inr (inr x)))
            | inr h5 ↦ cc
          ]
        ]
      ]
    ]
  ]

  -- A type that is among words that all have one subject has it.
  subject_of :
      (words : List Bytes) (p k : Bytes)
      → All (λ w. event_subject w ≡ some (p, k)) words
      → Among words word × (prefix ≡ p) × (kind ≡ k)
      → event_subject word ≡ some (prefix, kind)
  subject_of words p k all (among, prefix_is, kind_is) =
      rw (prefix_is, kind_is) (All-at (λ w. event_subject w ≡ some (p, k)) words word all among)

  pub IsAbout-subject : IsAbout word prefix kind → event_subject word ≡ some (prefix, kind)
  unfolding event_subject bytes_eq
  IsAbout-subject (inl x) =
      subject_of session_types (codes "cs_") (codes "checkout.session") (refl, (refl, (refl, tt))) x
  IsAbout-subject (inr (inl x)) =
      subject_of invoice_types (codes "in_") (codes "invoice") (refl, (refl, (refl, tt))) x
  IsAbout-subject (inr (inr (inl x))) =
      subject_of subscription_types (codes "sub_") (codes "subscription") (refl, (refl, tt)) x
  IsAbout-subject (inr (inr (inr (inl x)))) =
      subject_of refund_types (codes "re_") (codes "refund") (refl, (refl, (refl, tt))) x
  IsAbout-subject (inr (inr (inr (inr x)))) =
      subject_of dispute_types (codes "du_") (codes "dispute") (refl, (refl, (refl, (refl, tt)))) x
