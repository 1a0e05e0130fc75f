-- ===== src/Client/Members/Gates.antt =====
-- internal/helper/membership.go: whom AddMember and RemoveMember let in and out.
use secret_git.Prelude.{
  Text, true, false, none, List, [], ◌∷◌, ◌==◌, nat_eq, text_eq, Result, ok, err, length,
}
use secret_git.Library.{Library}
use secret_git.Roster.{Roster, Member, find_by_fingerprint, fingerprint, has_fingerprint}
use secret_git.Keys.{Identity, fingerprint_hex}
use secret_git.Prelude.{
  ◌≡◌, ◌≢◌, ◌↔◌, ◌∙◌, refl, sym, subst, arith, text_beq_iff, Bool-cases, inl, inr, ==_sound,
}
use secret_git.Errors.{Error}
use secret_git.Roster.{find_member}
use secret_git.Client.Members.{members_except, check_new_member, check_removal}

module _ ⦃lib : Library⦄ where
  same_got :
      (got : Result Error Text) (a b : Text)
      → elim got [ ok g ↦ g == a | err e ↦ false ] ≡ true
      → elim got [ ok g ↦ g == b | err e ↦ false ] ≡ true
      → a ≡ b
  same_got (ok g) a b h k = sym (==_sound g a h) ∙ ==_sound g b k
  same_got (err e) a b h k = cc

  -- A member has one fingerprint.
  has_fingerprint_unique :
      (a b : Text) (m : Member) → has_fingerprint a m ≡ true → has_fingerprint b m ≡ true → a ≡ b
  unfolding has_fingerprint
  has_fingerprint_unique a b m h k = same_got (fingerprint m) a b h k

  find_member-members_except :
      (target : Text) (ms : List Member) → find_member target (members_except ms target) ≡ none
  unfolding find_member members_except
  find_member-members_except target [] = refl
  find_member-members_except target (m ∷ ms) = ground (arith, find_member-members_except target ms)

  find_member-members_except_other :
      (fp target : Text) (ms : List Member)
      → fp ≢ target
      → find_member fp (members_except ms target) ≡ find_member fp ms
  unfolding find_member members_except
  find_member-members_except_other fp target [] ne = refl
  find_member-members_except_other fp target (m ∷ ms) ne =
      ground (
        arith,
        has_fingerprint_unique fp target m,
        find_member-members_except_other fp target ms ne,
      )

  -- What a successful check of a removal says of the members that stay.
  pub record IsRemoval (id : Identity) (trusted : Roster) (target : Text) (remaining : List Member)
      : Type 0 where
    pub not_self : target ≢ fingerprint_hex id
    pub gone : find_member target remaining ≡ none
    pub others :
        (fp : Text) → fp ≢ target → find_member fp remaining ≡ find_by_fingerprint fp trusted
    pub some_left : length remaining ≢ 0

  -- Where RemoveMember passes its checks, the target is not the caller and is not found among the
  -- members that stay; every other fingerprint finds the same member as before; and someone stays.
  pub check_removal-IsRemoval :
      (id : Identity) (trusted : Roster) (target : Text) (remaining : List Member)
      → check_removal id trusted target ≡ ok remaining
      → IsRemoval id trusted target remaining
  unfolding check_removal find_by_fingerprint
  check_removal-IsRemoval id trusted target remaining h =
      let kept : remaining ≡ members_except trusted.members target = ground (arith, h) in
      record {
        not_self = ground (arith, h, text_beq_iff target (fingerprint_hex id));
        gone = rw kept (find_member-members_except target trusted.members);
        others = λ fp ne. rw kept (find_member-members_except_other fp target trusted.members ne);
        some_left = ground (arith, h);
      }

  admits :
      (trusted : Roster) (new_member : Member) (oob : Text) (f : Result Error Text)
      → fingerprint new_member ≡ f
      → (check_new_member trusted new_member oob ≡ ok tt) ↔ (
          (oob ≢ []) × (fingerprint new_member ≡ ok oob) × (find_by_fingerprint oob trusted ≡ none))
  unfolding check_new_member
  admits trusted new_member oob (err e) h = ground (arith, h)
  admits trusted new_member oob (ok fp) h = elim (Bool-cases (oob == fp)) [
    | inl t ↦
        subst
          (λ (x : Text).
            fingerprint new_member ≡ ok x
            → (check_new_member trusted new_member oob ≡ ok tt) ↔ (
                (oob ≢ [])
                × (fingerprint new_member ≡ ok oob)
                × (find_by_fingerprint oob trusted ≡ none)))
          (==_sound oob fp t) (λ k. ground (arith, k, text_beq_iff oob oob, text_beq_iff oob [])) h
    | inr f ↦ ground (arith, h, f, text_beq_iff oob fp)
  ]

  -- AddMember passes its checks exactly where the fingerprint that was verified out of band is
  -- given, is that of the new member's keys, and finds no member of the roster.
  pub check_new_member_iff :
      (trusted : Roster) (new_member : Member) (oob : Text)
      → (check_new_member trusted new_member oob ≡ ok tt) ↔ (
          (oob ≢ []) × (fingerprint new_member ≡ ok oob) × (find_by_fingerprint oob trusted ≡ none))
  unfolding check_new_member
  check_new_member_iff trusted new_member oob =
      admits trusted new_member oob (fingerprint new_member) refl
