-- ===== src/Services/GroupMembers/Updated.antt =====
-- Who is a member after the list of members was replaced.
use mathlib.Core.Option.{some-injective}
use subtask.Base.{
  String, not, ◌&&◌, ◌||◌, ◌≡◌, refl, sym, ap, ◌∙◌, Option, some, List, [], ◌∷◌, map, filter, any,
  contains, contains-append_single, ◌==◌, Eq, option_eq, string_eq, ok, ◌>>=◌, arith, Bool-cases,
  inl, inr,
}
use subtask.Services.GroupMembers.{
  Members, member_join, member_leave, add_members, remove_members, member_ids, update_members,
}
use subtask.Services.GroupMembers.Distinct.{
  IsDistinct, contains-remove, IsDistinct-append, IsDistinct-remove,
}

-- The user service finds each user by the user's userid.
module _ {User : Type 0} ⦃user_eq : Eq User⦄ (user_fetcher : String → Option User)
    (userid_of : User → String) (found : (u : User) → user_fetcher (userid_of u) ≡ some u) where
  joined :
      (group : Members User) (u : User)
      → IsDistinct group.members
      → IsDistinct (member_join user_fetcher group (userid_of u)).members
        × ((x : Option User)
            → contains (member_join user_fetcher group (userid_of u)).members x
              ≡ (contains group.members x || some u == x))
  unfolding member_join
  joined group u h = rw (found u) (elim (Bool-cases (contains group.members (some u))) [
    | inl member ↦ rw member (
      h,
      λ x. elim (option_eq.dec (some u) x) [
        | yes same ↦ ground (arith, ap (contains group.members) same)
        | no differ ↦ ground arith
      ],
    )
    | inr other ↦ rw other (
      IsDistinct-append (some u) group.members other h,
      contains-append_single group.members (some u),
    )
  ])

  left :
      (group : Members User) (u : User)
      → IsDistinct group.members
      → IsDistinct (member_leave user_fetcher group (userid_of u)).members
        × ((x : Option User)
            → contains (member_leave user_fetcher group (userid_of u)).members x
              ≡ (contains group.members x && not (some u == x)))
  unfolding member_leave
  left group u h = rw (found u) (elim (Bool-cases (contains group.members (some u))) [
    | inl member ↦ rw member (
      IsDistinct-remove (some u) group.members h,
      λ x. contains-remove (some u) group.members x h,
    )
    | inr other ↦ rw other (
      h,
      λ x. elim (option_eq.dec (some u) x) [
        | yes same ↦ ground (arith, ap (contains group.members) same)
        | no differ ↦ ground arith
      ],
    )
  ])

  added :
      (us : List User) (group : Members User)
      → IsDistinct group.members
      → IsDistinct (add_members user_fetcher group (map userid_of us)).members
        × ((x : Option User)
            → contains (add_members user_fetcher group (map userid_of us)).members x
              ≡ (contains group.members x || any (λ u. some u == x) us))
  unfolding add_members
  added [] group h = (h, λ x. ground arith)
  added (u ∷ us) group h =
      let (d, first) = joined group u h in
      let (ds, rest) = added us (member_join user_fetcher group (userid_of u)) d in
      (ds, λ x. ground (arith, rest x, first x))

  removed :
      (us : List User) (group : Members User)
      → IsDistinct group.members
      → IsDistinct (remove_members user_fetcher group (map userid_of us)).members
        × ((x : Option User)
            → contains (remove_members user_fetcher group (map userid_of us)).members x
              ≡ (contains group.members x && not (any (λ u. some u == x) us)))
  unfolding remove_members
  removed [] group h = (h, λ x. ground arith)
  removed (u ∷ us) group h =
      let (d, first) = left group u h in
      let (ds, rest) = removed us (member_leave user_fetcher group (userid_of u)) d in
      (ds, λ x. ground (arith, rest x, first x))

  userid_of-injective : (u v : User) → userid_of u ≡ userid_of v → u ≡ v
  userid_of-injective u v p = some-injective u v (sym (found u) ∙ ap user_fetcher p ∙ found v)

  contains-userids :
      (us : List User) (u : User) → contains (map userid_of us) (userid_of u) ≡ contains us u
  contains-userids [] u = refl
  contains-userids (v ∷ us) u = elim (user_eq.dec v u) [
    | yes same ↦ ground (arith, ap userid_of same)
    | no differ ↦ ground (arith, contains-userids us u, userid_of-injective v u)
  ]

  filter-userids :
      (us ms : List User)
      → filter (λ id. not (contains (map userid_of us) id)) (map userid_of ms)
        ≡ map userid_of (filter (λ m. not (contains us m)) ms)
  filter-userids us [] = refl
  filter-userids us (m ∷ ms) = ground (arith, filter-userids us ms, contains-userids us m)

  member_ids-some : (ms : List User) → member_ids userid_of (map some ms) ≡ ok (map userid_of ms)
  unfolding member_ids
  member_ids-some [] = refl
  member_ids-some (m ∷ ms) = rw (member_ids-some ms) refl

  any-some : (us : List User) (u : User) → any (λ v. some v == some u) us ≡ contains us u
  any-some [] u = refl
  any-some (v ∷ us) u = elim (user_eq.dec v u) [
    | yes same ↦ ground (arith, same)
    | no differ ↦ ground (arith, any-some us u)
  ]

  contains-some : (us : List User) (u : User) → contains (map some us) (some u) ≡ contains us u
  contains-some [] u = refl
  contains-some (v ∷ us) u = elim (user_eq.dec v u) [
    | yes same ↦ ground (arith, same)
    | no differ ↦ ground (arith, contains-some us u)
  ]

  contains-others :
      (us ms : List User) (u : User)
      → contains (filter (λ m. not (contains us m)) ms) u ≡ (contains ms u && not (contains us u))
  contains-others us [] u = refl
  contains-others us (m ∷ ms) u = elim (user_eq.dec m u) [
    | yes same ↦ ground (arith, contains-others us ms u, ap (contains us) same)
    | no differ ↦ ground (arith, contains-others us ms u)
  ]

  -- If the user service finds each user by the user's userid, and no user is a member twice, then
  -- update_members with the userids of some users returns, after which these users are the members and
  -- no other user is, and none is twice.
  pub update_members-contains :
      (group : Members User) (ms us : List User)
      → group.members ≡ map some ms
      → IsDistinct group.members
      → (group' : Members User) × (update_members user_fetcher userid_of group (map userid_of us)
          ≡ ok group')
        × IsDistinct group'.members
        × ((u : User) → contains group'.members (some u) ≡ contains us u)
  unfolding update_members
  update_members-contains group ms us p h =
      let others = filter (λ m. not (contains us m)) ms in
      let (d, first) = added us group h in
      let (ds, rest) = removed others (add_members user_fetcher group (map userid_of us)) d in
      (
        remove_members user_fetcher (add_members user_fetcher group (map userid_of us))
            (map userid_of others),
        ap
              (λ r. r >>= (λ ids. ok (
                remove_members user_fetcher (add_members user_fetcher group (map userid_of us))
                  (filter (λ id. not (contains (map userid_of us) id)) ids))))
              (ap (member_ids userid_of) p ∙ member_ids-some ms)
            ∙ ap
                (λ ids. ok (
                  remove_members user_fetcher (add_members user_fetcher group (map userid_of us))
                    ids))
                (filter-userids us ms),
        ds,
        λ u. ground (
          arith,
          rest (some u),
          first (some u),
          any-some others u,
          any-some us u,
          contains-others us ms u,
          ap (λ l. contains l (some u)) p,
          contains-some ms u,
        ),
      )
