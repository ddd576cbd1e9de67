-- ===== src/Cluster/Rpc/Queries.antt =====
-- internal/cluster/remotedisk.go, q and the methods of RemoteDisk: the texts of the queries that a call
-- sends, which encoding/json keeps where they are valid UTF-8.
use gostore.Base.{Text, true, false, All, IsUtf8, valid_utf8, lookup, text_eq, ◌≡◌, refl}
use gostore.Cluster.Grid.{Values}
use gostore.Cluster.Rpc.{get_value}
use gostore.Cluster.Rpc.Remote.{
  DiskCall, make_vol, stat_vol, list_vols, delete_vol, write_all, read_all, rename_dir, delete_path,
  list_dir, disk_info, base_q, request_of,
}

-- The texts of a query, and of a call of a method, are valid UTF-8.
abbrev pub HasUtf8 : Values → Type 0
HasUtf8 = All (λ x. IsUtf8 x.0 × All IsUtf8 x.1)

abbrev pub CallHasUtf8 : DiskCall → Type 0
CallHasUtf8 (make_vol b) = IsUtf8 b
CallHasUtf8 (stat_vol b) = IsUtf8 b
CallHasUtf8 list_vols = Unit
CallHasUtf8 (delete_vol b force) = IsUtf8 b
CallHasUtf8 (write_all b o x) = IsUtf8 b × IsUtf8 o
CallHasUtf8 (read_all b o) = IsUtf8 b × IsUtf8 o
CallHasUtf8 (rename_dir sb so db do') = IsUtf8 sb × IsUtf8 so × IsUtf8 db × IsUtf8 do'
CallHasUtf8 (delete_path b o recursive) = IsUtf8 b × IsUtf8 o
CallHasUtf8 (list_dir b dir) = IsUtf8 b × IsUtf8 dir
CallHasUtf8 disk_info = Unit

-- Two lists stand for the same map.
abbrev pub SameMap : Values → Values → Type 0
SameMap q q' = (k : Text) → lookup k q' ≡ lookup k q

pub get_value-SameMap : (q q' : Values) (k : Text) → SameMap q q' → get_value q' k ≡ get_value q k
unfolding get_value
get_value-SameMap q q' k same = rw (same k, get_value) refl

-- What a method sends is valid UTF-8 where its arguments are.
pub base_q-HasUtf8 :
    (t : Text) (c : DiskCall) → IsUtf8 t → CallHasUtf8 c → HasUtf8 (base_q t (request_of c).1)
unfolding base_q request_of text_eq valid_utf8
base_q-HasUtf8 t (make_vol b) ht h = ((refl, (ht, tt)), ((refl, (h, tt)), tt))
base_q-HasUtf8 t (stat_vol b) ht h = ((refl, (ht, tt)), ((refl, (h, tt)), tt))
base_q-HasUtf8 t list_vols ht h = ((refl, (ht, tt)), tt)
base_q-HasUtf8 t (delete_vol b true) ht h =
    ((refl, (ht, tt)), ((refl, (h, tt)), ((refl, (refl, tt)), tt)))
base_q-HasUtf8 t (delete_vol b false) ht h =
    ((refl, (ht, tt)), ((refl, (h, tt)), ((refl, (refl, tt)), tt)))
base_q-HasUtf8 t (write_all b o x) ht h =
    ((refl, (ht, tt)), ((refl, (h.0, tt)), ((refl, (h.1, tt)), tt)))
base_q-HasUtf8 t (read_all b o) ht h =
    ((refl, (ht, tt)), ((refl, (h.0, tt)), ((refl, (h.1, tt)), tt)))
base_q-HasUtf8 t (rename_dir sb so db do') ht h = (
  (refl, (ht, tt)),
  ((refl, (h.0, tt)), ((refl, (h.1, tt)), ((refl, (h.2, tt)), ((refl, (h.3, tt)), tt)))),
)
base_q-HasUtf8 t (delete_path b o true) ht h =
    ((refl, (ht, tt)), ((refl, (h.0, tt)), ((refl, (h.1, tt)), ((refl, (refl, tt)), tt))))
base_q-HasUtf8 t (delete_path b o false) ht h =
    ((refl, (ht, tt)), ((refl, (h.0, tt)), ((refl, (h.1, tt)), ((refl, (refl, tt)), tt))))
base_q-HasUtf8 t (list_dir b dir) ht h =
    ((refl, (ht, tt)), ((refl, (h.0, tt)), ((refl, (h.1, tt)), tt)))
base_q-HasUtf8 t disk_info ht h = ((refl, (ht, tt)), tt)
