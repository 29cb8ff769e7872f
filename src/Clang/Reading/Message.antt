-- ===== src/Clang/Reading/Message.antt =====
-- What the reading of a whole message leaves in the builder.
use rcssserver.Base.{◌≡◌, refl, Option, some, List, [], ◌∷◌, ℕ}
use rcssserver.Clang.Syntax.{
  Body, meta_msg, define_msg, freeform_msg, unsupp_msg, info_msg, advice_msg, rule_msg, del_msg,
}
use rcssserver.Clang.Builder.Machine
use rcssserver.Clang.Builder.Machine.{
  Result, ok, Item, token, def, meta, as_token, as_def, as_meta, as_activate, set_versions, Msg,
  MsgBuilder, new_builder, M, ◌>>◌, ◌>>=◌, set_ver, set_msg, take_items, check_and_take,
}
use rcssserver.Clang.Reading.Rules.{read_message}
use rcssserver.Clang.Reading.Fits.{impossible, NonEmpty, FitsMessage}
use rcssserver.Clang.Reading.Yields.{
  Range, unset, only_7, only_8, from_7, any_version, versions, at, Yields, Reads,
  check_and_take-pushed, pushed, Clear, Tidy-nil, after_7, after_8, set_versions_7, set_versions_8,
}
use rcssserver.Clang.Reading.Nested.{read_id_list-Yields}
use rcssserver.Clang.Reading.Whole.{
  read_defs-Yields, read_tokens-Yields, read_activations-Yields, read_meta_tokens-Yields,
}

-- The builder with a message.
abbrev holding : Body → Range → MsgBuilder
holding body k = record {
  items = [];
  ver = versions k;
  msg = some (record { body = body; ver = versions k });
}

-- `setVer( 8, 7 )`.
abbrev after_any : Range → Range
after_any unset = any_version
after_any k = k

set_versions_any : (k : Range) → set_versions 8 7 (versions k) ≡ versions (after_any k)
unfolding set_versions
set_versions_any unset = refl
set_versions_any only_7 = refl
set_versions_any only_8 = refl
set_versions_any from_7 = refl
set_versions_any any_version = refl

-- The builder gives a new message its own versions, and keeps them.
hand_over :
    (k : Range)
    → (set_versions (versions k).min_ver (versions k).max_ver (versions unset) ≡ versions k)
      × (set_versions (versions k).min_ver (versions k).max_ver (versions k) ≡ versions k)
unfolding set_versions
hand_over unset = (refl, refl)
hand_over only_7 = (refl, refl)
hand_over only_8 = (refl, refl)
hand_over from_7 = (refl, refl)
hand_over any_version = (refl, refl)

-- The message that a part ends with, and the last `setVer`.
module _ (lo hi : ℕ) (after : Range → Range)
    (sets : (k : Range) → set_versions lo hi (versions k) ≡ versions (after k)) where
  ends :
      (body : Body) (k : Range)
      → (set_msg body >> set_ver lo hi) (at [] k) ≡ ok (tt, holding body (after k))
  ends body k = rw ((hand_over k).0, (hand_over k).1, sets k)

  -- A message of a list.
  ends_list :
      {A : Type 0} (type : Item → Option A) (item : A → Item)
      → Reads type item
      → (c : List A → Body) → Clear type []
      → (l : List A) → NonEmpty l
      → (m : M (Unit {0})) → Yields m [] (pushed item l [])
      → (k : Range) × ((m >> ((check_and_take type >>= λ l. set_msg (c l)) >> set_ver lo hi))
            new_builder
          ≡ ok (tt, holding (c l) k))
  ends_list type item reads c clear [] fits m p = impossible fits
  ends_list type item reads c clear (x ∷ xs) fits m p = (
    after (p.lands unset).0,
    rw
        (
          (p.lands unset).1,
          check_and_take-pushed type item reads x xs [] clear (p.lands unset).0,
          ◌>>◌,
          ◌>>=◌,
        )
        (ends (c (x ∷ xs)) (p.lands unset).0),
  )

-- For every message value that fits, the calls that the grammar makes while it reads the text of the
-- value, on the builder as it is made, raise no error, leave no item, and leave exactly this value as
-- the message; the message's versions are the builder's, and are one of the five of `Range`.
pub read_message-holds :
    (b : Body)
    → FitsMessage b
    → (k : Range) × (read_message b new_builder
        ≡ ok (
          tt,
          record {
            items = [];
            ver = versions k;
            msg = some (record { body = b; ver = versions k });
          },
        ))
unfolding FitsMessage take_items
read_message-holds (meta_msg l) fits =
    ends_list 7 7 after_7 set_versions_7 as_meta meta (λ x. refl) meta_msg (λ acc. refl) l fits _
      (read_meta_tokens-Yields l)
read_message-holds (define_msg l) fits =
    ends_list 8 7 after_any set_versions_any as_def def (λ x. refl) define_msg (λ acc. refl) l
      fits.0 _ (read_defs-Yields l fits.1)
read_message-holds (freeform_msg str) fits = (
  after_any unset,
  rw (fits, ◌>>◌, ◌>>=◌) (ends 8 7 after_any set_versions_any (freeform_msg str) unset),
)
read_message-holds unsupp_msg fits =
    (after_any unset, ends 8 7 after_any set_versions_any unsupp_msg unset)
read_message-holds (info_msg l) fits =
    ends_list 7 7 after_7 set_versions_7 as_token token (λ x. refl) info_msg (λ acc. refl) l fits.0
      _ (read_tokens-Yields l fits.1)
read_message-holds (advice_msg l) fits =
    ends_list 7 7 after_7 set_versions_7 as_token token (λ x. refl) advice_msg (λ acc. refl) l
      fits.0 _ (read_tokens-Yields l fits.1)
read_message-holds (rule_msg l) fits =
    ends_list 8 8 after_8 set_versions_8 as_activate Machine.activate (λ x. refl) rule_msg
      (λ acc. refl) l fits.0 _ (read_activations-Yields l fits.1)
read_message-holds (del_msg ids) fits =
    let p = (read_id_list-Yields ids [] fits Tidy-nil).lands unset in
    (after_8 p.0, rw (p.1, ◌>>◌, ◌>>=◌) (ends 8 8 after_8 set_versions_8 (del_msg ids) p.0))
