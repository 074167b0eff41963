-- ===== src/Document/Channels.antt =====
-- What `updateChannels` of db/document.go makes of a document's channels.
use sync_gateway.Prelude.{
  ◌≡◌, refl, ap, sym, ◌∙◌, Bool, true, false, not, ◌&&◌, ◌||◌, Option, none, some, List, [], ◌∷◌,
  ◌++◌, if◌then◌else◌, Str, str_eq, str_eq_iff, Bool-cases, inl, inr,
}
use sync_gateway.LogEntry.{ChannelMap, ChannelRemoval}
use sync_gateway.ChannelCache.{has_id}
use sync_gateway.Document.{
  Document, find_channel, assign_channel, leave_channels, is_joined, join_channels, removal_of,
  update_channels,
}

-- No channel stands twice in a map.
abbrev pub IsMap : ChannelMap → Type 0
IsMap [] = Unit {0}
IsMap ((name, v) ∷ m) = (find_channel name m ≡ none) × IsMap m

moved : (s t u : Str) → str_eq s t ≡ true → str_eq s u ≡ str_eq t u
moved s t u h = ap (λ z. str_eq z u) ((str_eq_iff s t).0 h)

find-assign_channel :
    (ch name : Str) (v : Option ChannelRemoval) (m : ChannelMap)
    → find_channel ch (assign_channel name v m)
      ≡ (if str_eq name ch then some v else find_channel ch m)
unfolding find_channel assign_channel
find-assign_channel ch name v [] = refl
find-assign_channel ch name v ((n, w) ∷ m) = elim (Bool-cases (str_eq n name)) [
  | inl here ↦ elim (Bool-cases (str_eq name ch)) [
    | inl found ↦ rw (here, found, moved n name ch here ∙ found) refl
    | inr other ↦ rw (here, other, moved n name ch here ∙ other) refl
  ]
  | inr there ↦ elim (Bool-cases (str_eq n ch)) [
    | inl found ↦
        let e : str_eq name ch ≡ false = elim (Bool-cases (str_eq name ch)) [
          | inl q ↦
              let k : str_eq n name ≡ true =
                (str_eq_iff n name).1
                  ((str_eq_iff n ch).0 found ∙ sym ((str_eq_iff name ch).0 q)) in
              cc
          | inr q ↦ q
        ] in
        rw (there, found, e) refl
    | inr other ↦ rw (there, other) (find-assign_channel ch name v m)
  ]
]

-- What a channel that is not current comes to.
unfoldable pub after_leave :
    ChannelRemoval → Bool → Option (Option ChannelRemoval) → Option (Option ChannelRemoval)
after_leave removal true v = v
after_leave removal false none = none
after_leave removal false (some none) = some (some removal)
after_leave removal false (some (some r)) = some (some r)

has_id-same : (s t : Str) (l : List Str) → str_eq s t ≡ true → has_id s l ≡ has_id t l
has_id-same s t l h = ap (λ z. has_id z l) ((str_eq_iff s t).0 h)

after_leave_stays :
    (removal r : ChannelRemoval) (b : Bool) → after_leave removal b (some (some r)) ≡ some (some r)
unfolding after_leave
after_leave_stays removal r true = refl
after_leave_stays removal r false = refl

find-leave_channels :
    (removal : ChannelRemoval) (new_channels : List Str) (ch : Str) (m : ChannelMap)
    → find_channel ch (leave_channels removal new_channels m).0
      ≡ after_leave removal (has_id ch new_channels) (find_channel ch m)
unfolding find_channel leave_channels after_leave
find-leave_channels removal ns ch [] = elim (Bool-cases (has_id ch ns)) [
  | inl q ↦ rw q refl
  | inr q ↦ rw q refl
]
find-leave_channels removal ns ch ((name, some v) ∷ m) = elim (Bool-cases (str_eq name ch)) [
  | inl here ↦ rw here (sym (after_leave_stays removal v (has_id ch ns)))
  | inr there ↦ rw there (find-leave_channels removal ns ch m)
]
find-leave_channels removal ns ch ((name, none) ∷ m) = elim (Bool-cases (has_id name ns)) [
  | inl kept ↦ elim (Bool-cases (str_eq name ch)) [
    | inl here ↦
        let q : has_id ch ns ≡ true = sym (has_id-same name ch ns here) ∙ kept in
        rw (kept, here, q) refl
    | inr there ↦ rw (kept, there) (find-leave_channels removal ns ch m)
  ]
  | inr gone ↦ elim (Bool-cases (str_eq name ch)) [
    | inl here ↦
        let q : has_id ch ns ≡ false = sym (has_id-same name ch ns here) ∙ gone in
        rw (gone, here, q) refl
    | inr there ↦ rw (gone, there) (find-leave_channels removal ns ch m)
  ]
]

has_id-leave_channels :
    (removal : ChannelRemoval) (new_channels : List Str) (ch : Str) (m : ChannelMap)
    → IsMap m
    → has_id ch (leave_channels removal new_channels m).1
      ≡ (is_joined (find_channel ch m) && not (has_id ch new_channels))
unfolding find_channel leave_channels is_joined has_id
has_id-leave_channels removal ns ch [] u = refl
has_id-leave_channels removal ns ch ((name, some v) ∷ m) u =
    let i = has_id-leave_channels removal ns ch m u.1 in
    elim (Bool-cases (str_eq name ch)) [
      | inl here ↦
          let f : find_channel ch m ≡ none =
            ap (λ z. find_channel z m) (sym ((str_eq_iff name ch).0 here)) ∙ u.0 in
          rw (here) (i ∙ rw f refl)
      | inr there ↦ rw (there) i
    ]
has_id-leave_channels removal ns ch ((name, none) ∷ m) u =
    let i = has_id-leave_channels removal ns ch m u.1 in
    elim (Bool-cases (str_eq name ch)) [
      | inl here ↦
          let f : find_channel ch m ≡ none =
            ap (λ z. find_channel z m) (sym ((str_eq_iff name ch).0 here)) ∙ u.0 in
          let j : has_id ch (leave_channels removal ns m).1 ≡ false = i ∙ rw f refl in
          let q = has_id-same name ch ns here in
          elim (Bool-cases (has_id name ns)) [
            | inl kept ↦ rw (here, kept, sym q ∙ kept) j
            | inr gone ↦ rw (here, gone, sym q ∙ gone) (rw here refl)
          ]
      | inr there ↦ elim (Bool-cases (has_id name ns)) [
        | inl kept ↦ rw (there, kept) i
        | inr gone ↦ rw (there, gone) (rw there i)
      ]
    ]

is_joined-some : (v : Option (Option ChannelRemoval)) → is_joined v ≡ true → v ≡ some none
unfolding is_joined
is_joined-some (some none) h = refl
is_joined-some none h = absurd cc
is_joined-some (some (some r)) h = absurd cc

-- The channels that are entered.
join_channels_lem :
    (ch : Str) (new_channels : List Str) (m : ChannelMap)
    → (find_channel ch (join_channels new_channels m).0
        ≡ (if has_id ch new_channels then some none else find_channel ch m))
      × (has_id ch (join_channels new_channels m).1
          ≡ (has_id ch new_channels && not (is_joined (find_channel ch m))))
unfolding join_channels has_id is_joined
join_channels_lem ch [] m = (refl, refl)
join_channels_lem ch (name ∷ ns) m =
    let (i, k) = join_channels_lem ch ns m in
    let j = join_channels ns m in
    elim (Bool-cases (str_eq name ch)) [
      | inl here ↦
          let e : is_joined (find_channel name j.0) ≡ is_joined (find_channel ch j.0) =
            ap (λ z. is_joined (find_channel z j.0)) ((str_eq_iff name ch).0 here) in
          elim (Bool-cases (has_id ch ns)) [
            | inl again ↦
                let a : find_channel ch j.0 ≡ some none = i ∙ rw again refl in
                let b : is_joined (find_channel name j.0) ≡ true = e ∙ rw (a, is_joined) refl in
                (rw (b, here) a, rw (b, here) (k ∙ rw again refl))
            | inr once ↦
                let a : find_channel ch j.0 ≡ find_channel ch m = i ∙ rw once refl in
                let e' = e ∙ ap is_joined a in
                elim (Bool-cases (is_joined (find_channel ch m))) [
                  | inl joined ↦ (
                    rw (e', joined, here) (a ∙ is_joined-some (find_channel ch m) joined),
                    rw (e', joined, here) (k ∙ rw once refl),
                  )
                  | inr left ↦ (
                    rw (e', left, here) (find-assign_channel ch name none j.0 ∙ rw here refl),
                    rw (e', left, here) refl,
                  )
                ]
          ]
      | inr there ↦ elim (Bool-cases (is_joined (find_channel name j.0))) [
        | inl joined ↦ (rw (joined, there) i, rw (joined, there) k)
        | inr left ↦ (
          rw (left, there) (find-assign_channel ch name none j.0 ∙ rw there i),
          rw (left, there) k,
        )
      ]
    ]

has_id_append :
    (ch : Str) (names more : List Str)
    → has_id ch (names ++ more) ≡ (has_id ch names || has_id ch more)
unfolding has_id
has_id_append ch [] more = refl
has_id_append ch (n ∷ names) more = elim (Bool-cases (str_eq n ch)) [
  | inl q ↦ rw q refl
  | inr q ↦ rw q (has_id_append ch names more)
]

-- The channels that a document has, an empty map for nil.
unfoldable pub channels_of : Option ChannelMap → ChannelMap
channels_of none = []
channels_of (some m) = m

pub document_channel : Str → Document → Option (Option ChannelRemoval)
document_channel ch doc = find_channel ch (channels_of doc.channels)

old_left : ChannelRemoval → List Str → Option ChannelMap → ChannelMap × List Str
old_left removal ns o = elim o as (λ o. ChannelMap × List Str) [
  | none ↦ ([], [])
  | some old ↦ leave_channels removal ns old
]

find-old_left :
    (removal : ChannelRemoval) (ns : List Str) (ch : Str) (o : Option ChannelMap)
    → IsMap (channels_of o)
    → (find_channel ch (old_left removal ns o).0
        ≡ after_leave removal (has_id ch ns) (find_channel ch (channels_of o)))
      × (has_id ch (old_left removal ns o).1
          ≡ (is_joined (find_channel ch (channels_of o)) && not (has_id ch ns)))
unfolding old_left channels_of leave_channels
find-old_left removal ns ch none u =
    (find-leave_channels removal ns ch [], has_id-leave_channels removal ns ch [] u)
find-old_left removal ns ch (some m) u =
    (find-leave_channels removal ns ch m, has_id-leave_channels removal ns ch m u)

entered_or_left :
    (removal : ChannelRemoval) (b : Bool) (v : Option (Option ChannelRemoval))
    → ((if b then some none else after_leave removal b v)
        ≡ (if b then some none else after_leave removal false v))
      × ((b && not (is_joined (after_leave removal b v))) ≡ (b && not (is_joined v)))
unfolding after_leave
entered_or_left removal true v = (refl, refl)
entered_or_left removal false v = (refl, refl)

-- After `updateChannels` to new channels, in whatever order they stand, the document's map has for
-- every channel: that the document is in it, if it is one of the new channels; and otherwise what
-- the map had, but with a removal by the document's current revision, sequence and deletion flag
-- where the document was in the channel. The channels reported as changed are those that the
-- document was in and is no longer in, and those that it is in and was not.
-- The old map has no channel twice.
pub update_channels_lem :
    (new_channels : List Str) (doc : Document) (ch : Str)
    → IsMap (channels_of doc.channels)
    → (document_channel ch (update_channels new_channels doc).0 ≡ (
        if has_id ch new_channels
        then some none
        else after_leave (removal_of doc) false (find_channel ch (channels_of doc.channels))))
      × (has_id ch (update_channels new_channels doc).1 ≡ (
          (is_joined (find_channel ch (channels_of doc.channels)) && not (has_id ch new_channels))
          || (has_id ch new_channels
              && not (is_joined (find_channel ch (channels_of doc.channels))))))
unfolding update_channels channels_of document_channel old_left
update_channels_lem ns doc ch u =
    let removal = removal_of doc in
    let (a, b) = find-old_left removal ns ch doc.channels u in
    let left = old_left removal ns doc.channels in
    let (c, d) = join_channels_lem ch ns left.0 in
    let (e, f) =
      entered_or_left removal (has_id ch ns) (find_channel ch (channels_of doc.channels)) in
    (
      c ∙ ap (λ z. if has_id ch ns then some none else z) a ∙ e,
      has_id_append ch left.1 (join_channels ns left.0).1
          ∙ ap (λ z. z || has_id ch (join_channels ns left.0).1) b
          ∙ ap
              (λ z.
                (is_joined (find_channel ch (channels_of doc.channels)) && not (has_id ch ns)) || z)
              (d ∙ ap (λ z. has_id ch ns && not (is_joined z)) a ∙ f),
    )
