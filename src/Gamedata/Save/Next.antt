-- ===== src/Gamedata/Save/Next.antt =====
-- What the next update reads of the file of versions that this one wrote.
use rhine.Gamedata.Pool.{
  IsFinished, Reachable, Pool, JobResult, get_and_update, Fetched, version_line,
}
use rhine.Gamedata.Save.Tally.{finished-tally, tally-Perm, weigh, hit, tally}
use rhine.Gamedata.Version.{parse_line, write_lines, load_version_file, VerMap}
use rhine.Gamedata.Version.Round.{
  load_version_file-entries, parse_line-version_line, AllClean, IsClean, line_of,
}
use mathlib.Core.List.{Memᴰ}
use rhine.Prelude.{
  true, false, ◌++◌, ◌⊎◌, ◌+◌, ◌∙◌, ap, sym, inr, ◌∷◌, inl, arith, map, refl, ◌≡◌, some, none, List,
  ◌<◌, [], Option, Bytes,
}
use mathlib.Core.Path.{subst}
use rhine.Gamedata.Save.Etags.{
  entries_map-same, tally-Memᴰ, or_empty, etag_after, hit_self, hit-ne, zero_or, shows, sends-shows,
}
use rhine.Disk.{IsLawful, Disk}
use mathlib.Core.Option.{some-injective}
use rhine.Gamedata.Save.{version_path, finish_update, Update, StringSorter}
use rhine.Gamedata.Complete.{GoesOn}
use rhine.Gamedata.Save.Written.{finish_update-write_lines}
use mathlib.Core.List.Memᴰ

module _ (ver : VerMap) (fetch : Bytes → Fetched) where
  abbrev pub etag_of : Bytes → Option Bytes
  etag_of path = etag_after (ver path) (fetch path)

  abbrev pub result_of : Bytes → JobResult
  result_of path = get_and_update path (ver path) (fetch path)

  -- Every file's line can be read back.
  abbrev pub AllFit : List Bytes → Type 0
  AllFit [] = Unit
  AllFit (path ∷ paths) =
      ((etag : Bytes) → etag_of path ≡ some etag → IsClean path etag) × AllFit paths

  fits :
      (path etag : Bytes) (paths : List Bytes)
      → AllFit paths
      → Memᴰ path paths
      → etag_of path ≡ some etag
      → IsClean path etag
  fits path etag [] _ i o = absurd (Memᴰ.not-nil i)
  fits path etag (q ∷ paths) (f, fs) (Memᴰ.head e) o =
      subst (λ x. IsClean x etag) (sym e) (f etag (ap etag_of (sym e) ∙ o))
  fits path etag (q ∷ paths) (f, fs) (Memᴰ.tail i) o = fits path etag paths fs i o

  -- Where a line comes from.
  data Origin (line : Bytes) (paths : List Bytes) : Type 0 where
    origin :
        (path etag : Bytes)
        → Memᴰ path paths
        → etag_of path ≡ some etag
        → version_line path etag ≡ line
        → Origin line paths

  Origin-tail : (line q : Bytes) (paths : List Bytes) → Origin line paths → Origin line (q ∷ paths)
  Origin-tail line q paths (origin path etag i o e) = origin path etag (Memᴰ.tail i) o e

  first-Origin :
      (line path : Bytes) (paths : List Bytes) (o : Option Bytes)
      → etag_of path ≡ o
      → (0 < weigh result_of line paths → Origin line paths)
      → 0 < shows line path o + weigh result_of line paths
      → Origin line (path ∷ paths)
  first-Origin line path paths none e rest h = Origin-tail line path paths (rest (omega (arith, h)))
  first-Origin line path paths (some etag) e rest h =
      elim (zero_or (hit line (version_line path etag))) [
        | inl z ↦ Origin-tail line path paths (rest (omega (arith, h, z)))
        | inr p ↦ origin path etag (Memᴰ.head refl) e (hit-ne line (version_line path etag) p)
      ]

  weigh-Origin :
      (line : Bytes) (paths : List Bytes) → 0 < weigh result_of line paths → Origin line paths
  unfolding weigh
  weigh-Origin line [] h = absurd (omega (arith, h))
  weigh-Origin line (path ∷ paths) h =
      first-Origin line path paths (etag_of path) refl (weigh-Origin line paths)
        (omega (arith, h, sends-shows line path (ver path) (fetch path)))

  weigh-positive :
      (path etag : Bytes) (paths : List Bytes)
      → Memᴰ path paths
      → etag_of path ≡ some etag
      → 0 < weigh result_of (version_line path etag) paths
  unfolding weigh
  weigh-positive path etag [] i o = absurd (Memᴰ.not-nil i)
  weigh-positive path etag (q ∷ paths) (Memᴰ.head e) o =
      let line = version_line path etag in
      omega (
        arith,
        sends-shows line q (ver q) (fetch q),
        ap (λ x. shows line x (etag_of x)) (sym e),
        ap (shows line path) o,
        hit_self line,
      )
  weigh-positive path etag (q ∷ paths) (Memᴰ.tail i) o =
      omega (arith, weigh-positive path etag paths i o)

  -- The entries of lines that the files sent.
  data Entries (paths lines : List Bytes) : Type 0 where
    entries :
        (es : List (Bytes × Bytes))
        → lines ≡ map line_of es
        → ((x : Bytes × Bytes) → Memᴰ x es → etag_of x.0 ≡ some x.1)
        → AllClean es
        → Entries paths lines

  one_more :
      (line : Bytes) (lines paths : List Bytes)
      → AllFit paths
      → Origin line paths
      → Entries paths lines
      → Entries paths (line ∷ lines)
  one_more line lines paths f (origin path etag i o e) (entries es l s c) =
      entries ((path, etag) ∷ es)
        (ap (λ x. x ∷ lines) (sym e) ∙ ap (λ x. version_line path etag ∷ x) l) from
        (fits path etag paths f i o, c)
    where
      from : (x : Bytes × Bytes) → Memᴰ x ((path, etag) ∷ es) → etag_of x.0 ≡ some x.1
      from x (Memᴰ.head h) =
          ap (λ (y : Bytes × Bytes). etag_of y.0) h
          ∙ o
          ∙ ap (λ (y : Bytes × Bytes). some y.1) (sym h)
      from x (Memᴰ.tail h) = s x h

  parsed_lines :
      (paths lines : List Bytes)
      → AllFit paths
      → ((line : Bytes) → 0 < tally line lines → Origin line paths)
      → Entries paths lines
  unfolding tally
  parsed_lines paths [] f h = entries [] refl (λ x i. absurd (Memᴰ.not-nil i)) tt
  parsed_lines paths (line ∷ lines) f h =
      one_more line lines paths f (h line (omega (arith, hit_self line)))
        (parsed_lines paths lines f (λ l p. h l (omega (arith, p))))

  IsClean-at :
      (x : Bytes × Bytes) (es : List (Bytes × Bytes)) → Memᴰ x es → AllClean es → IsClean x.0 x.1
  IsClean-at x [] i c = absurd (Memᴰ.not-nil i)
  IsClean-at x (y ∷ es) (Memᴰ.head e) (c, cs) =
      subst (λ (z : Bytes × Bytes). IsClean z.0 z.1) (sym e) c
  IsClean-at x (y ∷ es) (Memᴰ.tail i) (c, cs) = IsClean-at x es i cs

  -- A line of clean parts has no other ones.
  line_of-injective :
      (x : Bytes × Bytes) (path etag : Bytes)
      → IsClean x.0 x.1
      → IsClean path etag
      → line_of x ≡ version_line path etag
      → x ≡ (path, etag)
  line_of-injective x path etag c d e =
      some-injective x (path, etag)
        (sym (parse_line-version_line x.0 x.1 c)
          ∙ ap parse_line e
          ∙ parse_line-version_line path etag d)

  job_entry :
      (job : Bytes) (paths : List Bytes) (es : List (Bytes × Bytes)) (o : Option Bytes)
      → AllFit paths
      → Memᴰ job paths
      → etag_of job ≡ o
      → ((etag : Bytes)
          → etag_of job ≡ some etag
          → 0 < tally (version_line job etag) (map line_of es))
      → AllClean es
      → ([] ≡ or_empty o) ⊎ Memᴰ (job, or_empty o) es
  job_entry job paths es none f i e t c = inl refl
  job_entry job paths es (some etag) f i e t c =
      let (x, (j, l)) = tally-Memᴰ (version_line job etag) es (t etag e) in
      inr (
        subst (λ y. Memᴰ y es)
          (line_of-injective x job etag (IsClean-at x es j c) (fits job etag paths f i e) l) j)

  loads-Entries :
      (job : Bytes) (paths lines : List Bytes)
      → AllFit paths
      → Memᴰ job paths
      → ((etag : Bytes) → etag_of job ≡ some etag → 0 < tally (version_line job etag) lines)
      → Entries paths lines
      → load_version_file (some (write_lines lines)) job ≡ or_empty (etag_of job)
  loads-Entries job paths lines f i t (entries es l s c) =
      ap (λ ls. load_version_file (some (write_lines ls)) job) l
      ∙ ap (λ (m : VerMap). m job) (load_version_file-entries es c)
      ∙ entries_map-same job (or_empty (etag_of job)) es (λ path. [])
          (λ x j e. sym (ap or_empty (ap etag_of (sym e) ∙ s x j)))
          (job_entry job paths es (etag_of job) f i refl
            (λ etag o. subst (λ ls. 0 < tally (version_line job etag) ls) l (t etag o)) c)

  -- Behind an update whose workers never stopped, and which is marked as done, on a disk that keeps
  -- the files, the next update finds in the file of versions, for each of its files, the etag that
  -- now stands for the file: the old one behind a 304, the new one behind a 200 and a saved body,
  -- and none behind an error; if each path and etag can be read back from a line. Neither the order
  -- of the replies nor that of the workers counts.
  pub load_version_file-finish_update :
      {W E : Type 0} (disk : Disk W E) (file : Bytes → W → Option Bytes) (sorter : StringSorter)
      (bin_dir job : Bytes) (before behind : List Bytes) (p : Pool) (u : Update W E)
      → IsLawful disk file
      → ((path : Bytes) → GoesOn (result_of path))
      → AllFit (before ++ job ∷ behind)
      → Reachable result_of (before ++ job ∷ behind) p
      → IsFinished p
      → u.update_checked ≡ false
      → (finish_update disk sorter bin_dir p u).update_checked ≡ true
      → load_version_file
          (file (version_path disk bin_dir) (finish_update disk sorter bin_dir p u).files)
          job
        ≡ or_empty (etag_of job)
  load_version_file-finish_update disk file sorter bin_dir job before behind p u lawful goes_on f r
        finished n c =
      ap (λ content. load_version_file content job)
        (finish_update-write_lines disk file lawful sorter bin_dir p u n c)
      ∙ loads-Entries job paths (sorter.sort p.etags) f job_in
          (λ etag o.
            subst (λ k. 0 < k) (sym (counts (version_line job etag)))
              (weigh-positive job etag paths job_in o))
          (parsed_lines paths (sorter.sort p.etags) f
            (λ line h. weigh-Origin line paths (subst (λ k. 0 < k) (counts line) h)))
    where
      paths : List Bytes
      paths = before ++ job ∷ behind

      job_in : Memᴰ job (before ++ job ∷ behind)
      job_in = Memᴰ.append_right before (Memᴰ.head refl)

      counts :
          (line : Bytes)
          → tally line (sorter.sort p.etags) ≡ weigh result_of line (before ++ job ∷ behind)
      counts line =
          tally-Perm line (sorter.sort p.etags) p.etags (sorter.sort-perm p.etags)
          ∙ finished-tally result_of line (before ++ job ∷ behind) p goes_on r finished
