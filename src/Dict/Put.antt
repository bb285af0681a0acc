-- ===== src/Dict/Put.antt =====
-- `dic_add` followed by `*dic->value = v`, as `tm_write` does it: an insertion into a map.
use cs453_2025_project.Prelude.{
  ℕ, ◌*◌, ◌<◌, ◌≡◌, refl, Option, none, some, ◌==◌, if◌then◌else◌, arith, ==_self, ◌∙◌,
}
use cs453_2025_project.Machine.{Ptr, null, ret}
use cs453_2025_project.Dict.{Dictionary, int_end, find_in, dic_add, write_value}
use cs453_2025_project.Dict.Placed.{entries, IsDict}
use cs453_2025_project.Dict.Add.{Added, dic_add-Added, write_value_lem}

-- The key is there after `dic_add`.
present :
    (d d' : Dictionary) (key res : Ptr) (o : Option Ptr)
    → find_in key (entries d) ≡ o
    → Added d key d' res
    → (old : Ptr) × (find_in key (entries d') ≡ some old)
present d d' key res none e a = (null, ground (arith, a.reads key, ==_self key))
present d d' key res (some v) e a = (v, ground (arith, a.reads key))

-- What `dic_add` leaves is ready for a write through `value`.
pub Added-write_value :
    (d d' : Dictionary) (key res v : Ptr)
    → IsDict d
    → Added d key d' res
    → (d'' : Dictionary) × (write_value d' v ≡ some d'')
      × IsDict d''
      × ((q : Ptr) → find_in q (entries d'') ≡ (if q == key then some v else find_in q (entries d)))
Added-write_value d d' key res v wf a =
    let (old, there) = present d d' key res (find_in key (entries d)) refl a in
    let (d'', write, wf'', reads) = write_value_lem d' key old v a.wf a.cursor there in
    (d'', write, wf'', λ q. reads q ∙ other q)
  where
    other :
        (q : Ptr)
        → (if q == key then some v else find_in q (entries d'))
          ≡ (if q == key then some v else find_in q (entries d))
    other q = ground (arith, a.reads q)

-- In a well-formed dictionary with fewer than 53,687,092 keys `dic_add` returns and the write through
-- `value` succeeds; afterwards the dictionary is well-formed, the key has the new value and every
-- other key its old one, whether the key was there, and whether the table was resized.
pub find-put :
    (d : Dictionary) (key v : Ptr)
    → IsDict d
    → 40 * d.count < int_end
    → (added d' : Dictionary) × (res : ℕ) × (dic_add d key ≡ ret (added, res))
      × (write_value added v ≡ some d')
      × IsDict d'
      × ((q : Ptr) → find_in q (entries d') ≡ (if q == key then some v else find_in q (entries d)))
find-put d key v wf small =
    let (added, res, call, _, a) = dic_add-Added d key wf small in
    let (d', write, wf', reads) = Added-write_value d added key res v wf a in
    (added, d', res, call, write, wf', reads)
