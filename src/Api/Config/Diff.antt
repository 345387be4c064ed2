-- ===== src/Api/Config/Diff.antt =====
-- What the line diff of apps/api/src/trpc/routers/config.ts says of two configurations.
use mikrotikbandwidthmonitor.Prelude.{
  ◌≡◌, refl, inl, inr, true, not, List, [], ◌∷◌, Bool-cases, arith, ◌&&◌,
}
use mikrotikbandwidthmonitor.Prelude.Bytes.{Text, text_eq, text_eq_iff}
use mikrotikbandwidthmonitor.Api.Schema.{ConfigSnapshot}
use mikrotikbandwidthmonitor.Api.Config.{split_lines, includes, lines_not_in, diff_of}

-- A line is in the lines kept exactly if it is in the lines and not in the others.
pub includes-lines_not_in :
    (l : Text) (others ls : List Text)
    → includes l (lines_not_in others ls) ≡ (includes l ls && not (includes l others))
unfolding includes lines_not_in
includes-lines_not_in l others [] = refl
includes-lines_not_in l others (m ∷ ls) = elim (Bool-cases (text_eq m l)) [
  | inl same ↦
      let e : m ≡ l = (text_eq_iff m l).0 same in
      let self : text_eq l l ≡ true = (text_eq_iff l l).1 refl in
      rw e (ground (arith, self, includes-lines_not_in l others ls))
  | inr different ↦ ground (arith, includes-lines_not_in l others ls)
]

-- A line is reported as added exactly if the second configuration has it and the first has not, and
-- as removed exactly if the first has it and the second has not.
pub includes-diff_of :
    (a b : ConfigSnapshot) (l : Text)
    → (includes l (diff_of a b).added
        ≡ (includes l (split_lines b.export_rsc) && not (includes l (split_lines a.export_rsc))))
      × (includes l (diff_of a b).removed
          ≡ (includes l (split_lines a.export_rsc) && not (includes l (split_lines b.export_rsc))))
unfolding diff_of
includes-diff_of a b l = (
  includes-lines_not_in l (split_lines a.export_rsc) (split_lines b.export_rsc),
  includes-lines_not_in l (split_lines b.export_rsc) (split_lines a.export_rsc),
)
