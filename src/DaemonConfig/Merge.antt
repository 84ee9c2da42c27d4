-- ===== src/DaemonConfig/Merge.antt =====
-- An `update` of settings that the laws hold of, for the tests.
use pytest_salt_factories.Base.{
  ◌≡◌, refl, sym, ◌∙◌, ap, true, Option, none, some, ◌++◌, ◌==◌, ==_sound, nat_eq, arith,
  if◌then◌else◌, Bool-cases, inl, inr,
}
use pytest_salt_factories.Base.Text.{Text, text_eq}
use pytest_salt_factories.TempFiles.{path_eq}
use pytest_salt_factories.Manager.RootDir.{}
use pytest_salt_factories.DaemonConfig.{
  Setting, str, decimal, num, flag, nothing, texts, table, Settings, empty, entry, get, is_plain,
  UpdateLaws,
}
use pytest_salt_factories.DaemonConfig.Minion.{}
use pytest_salt_factories.DaemonConfig.Master.{}
use pytest_salt_factories.DaemonConfig.Syndic.{}
use pytest_salt_factories.DaemonConfig.Proxy.{}
use pytest_salt_factories.DaemonConfig.Shared.{}

unfoldable pub put : Text → Setting → Settings → Settings
put k v empty = entry k v empty
put k v (entry j w s) = let rest = put k v s in if k == j then entry j v s else entry j w rest

unfoldable mutual
  pub merge : Settings → Settings → Settings
  merge d empty = d
  merge d (entry k v u) = put k (merge_setting v (get k d)) (merge d u)

  pub merge_setting : Setting → Option Setting → Setting
  merge_setting (table b) (some (table a)) = table (merge a b)
  merge_setting (texts ys) (some (texts xs)) = texts (xs ++ ys)
  merge_setting v o = v

get-put :
    (j k : Text) (v : Setting) (s : Settings)
    → get j (put k v s) ≡ (if j == k then some v else get j s)
unfolding get put
get-put j k v empty = refl
get-put j k v (entry i w s) = ground (arith, get-put j k v s)

get-merge_kept : (k : Text) (d u : Settings) → get k u ≡ none → get k (merge d u) ≡ get k d
unfolding get merge
get-merge_kept k d empty lacks = refl
get-merge_kept k d (entry j v u) lacks =
    ground (arith, lacks, get-put k j (merge_setting v (get j d)) (merge d u), get-merge_kept k d u)

merge_setting-plain : (v : Setting) (o : Option Setting) → is_plain v ≡ true → merge_setting v o ≡ v
unfolding is_plain merge_setting
merge_setting-plain (str t) o plain = refl
merge_setting-plain (decimal t) o plain = refl
merge_setting-plain (num n) o plain = refl
merge_setting-plain (flag b) o plain = refl
merge_setting-plain nothing o plain = refl
merge_setting-plain (texts t) o plain = cc
merge_setting-plain (table s) o plain = cc

merge_setting-none : (v : Setting) → merge_setting v none ≡ v
unfolding merge_setting
merge_setting-none (str t) = refl
merge_setting-none (decimal t) = refl
merge_setting-none (num n) = refl
merge_setting-none (flag b) = refl
merge_setting-none nothing = refl
merge_setting-none (texts t) = refl
merge_setting-none (table s) = refl

get-merge_added :
    (k : Text) (d u : Settings) (v : Setting)
    → get k d ≡ none
    → get k u ≡ some v
    → get k (merge d u) ≡ some v
unfolding get merge merge_setting
get-merge_added k d empty v lacks has = cc
get-merge_added k d (entry j w u) v lacks has = elim (Bool-cases (k == j)) [
  | inl same ↦
      let absent = ap (λ x. get x d) (sym (==_sound k j same)) ∙ lacks in
      ground (
        arith,
        same,
        has,
        get-put k j (merge_setting w (get j d)) (merge d u),
        ap (merge_setting w) absent ∙ merge_setting-none w,
      )
  | inr other ↦ ground (
    arith,
    other,
    lacks,
    has,
    get-put k j (merge_setting w (get j d)) (merge d u),
    get-merge_added k d u v,
  )
]

get-merge_replaced :
    (k : Text) (d u : Settings) (v : Setting)
    → get k u ≡ some v
    → is_plain v ≡ true
    → get k (merge d u) ≡ some v
unfolding get merge
get-merge_replaced k d empty v has plain = cc
get-merge_replaced k d (entry j w u) v has plain = elim (Bool-cases (k == j)) [
  | inl same ↦
      let won : w ≡ v = ground (arith, same, has) in
      ground (
        arith,
        same,
        get-put k j (merge_setting w (get j d)) (merge d u),
        merge_setting-plain w (get j d) (ap is_plain won ∙ plain),
        won,
      )
  | inr other ↦ ground (
    arith,
    other,
    has,
    plain,
    get-put k j (merge_setting w (get j d)) (merge d u),
    get-merge_replaced k d u v,
  )
]

pub merge-UpdateLaws : UpdateLaws merge
merge-UpdateLaws = record {
  kept = get-merge_kept;
  added = get-merge_added;
  replaced = get-merge_replaced;
}
