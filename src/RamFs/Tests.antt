-- ===== src/RamFs/Tests.antt =====
-- A tree with one file in a directory.
use felix.Prelude.{ℕ, ◌≡◌, refl, ap, Bool, true, false, none, some, List, [], ◌∷◌, ◌++◌, arith}
use felix.RamFs.{
  Text, RamFs, file, directory, no_entries, entry, new, slash, lookup, put, same_text, split_from,
  split_path, join_path, parts_before, last_part, parent_and_name, get_node, set_node, dir_at,
  make_dirs, register, insert_inode, ensure_dirs, add_node, create_node, create_file, read_file,
  write_file, remove_file, take_out, without, trim_end, starts_with,
}
use felix.RamFs.Inode.{write_at, read_at, path_for_inode, find_inode, write_at-read_at}
use felix.RamFs.Rename.{
  rename, detach, attach, rename_paths, last_update, set_first, suffix, starts_character,
  rename_lem,
}
use felix.RamFs.Paths.{split_path-join_path}
use felix.RamFs.Files.{create_node-read_file, create_file-read_file, create_node-failed}
use felix.RamFs.Writes.{KeepsOthers, write_file_lem, remove_file_lem}

abbrev etc_motd : Text
etc_motd = b'/' ∷ b'e' ∷ b'/' ∷ b'm' ∷ []

abbrev home : Text
home = b'/' ∷ b'h' ∷ []

abbrev hello : List ℕ
hello = b'h' ∷ b'i' ∷ []

abbrev one_file : RamFs
one_file = record {
  root =
      directory
        (entry (b'e' ∷ []) (directory (entry (b'm' ∷ []) (file hello) no_entries)) no_entries);
  inodes = record {
    counter = 4;
    paths = (1, slash ∷ []) ∷ (2, (b'/' ∷ b'e' ∷ []) ∷ []) ∷ (3, etc_motd ∷ []) ∷ [];
  };
}

reads : read_file one_file etc_motd ≡ some hello
unfolding read_file get_node lookup same_text split_path split_from
reads = refl

-- What the calls build.
created : create_file new etc_motd hello ≡ (true, one_file)
unfolding create_file create_node new ensure_dirs add_node make_dirs dir_at parent_and_name
    parts_before last_part get_node set_node lookup put same_text split_path split_from join_path
    register insert_inode
created = refl

create_node-read_file_example :
    read_file (create_node one_file home (directory no_entries)).1 etc_motd ≡ some hello
create_node-read_file_example =
    create_node-read_file one_file home etc_motd (directory no_entries) hello reads

create_file-read_file_example : read_file (create_file new etc_motd hello).1 etc_motd ≡ some hello
create_file-read_file_example =
    create_file-read_file new etc_motd hello (unfold split_path split_from in refl)
      (ap (λ (r : Bool × RamFs). r.0) created)

fails : (create_node one_file etc_motd (file [])).0 ≡ false
unfolding create_node ensure_dirs add_node make_dirs dir_at parent_and_name parts_before last_part
    get_node lookup put same_text split_path split_from join_path
fails = refl

create_node-failed_example :
    (create_node one_file etc_motd (file [])).1.root
    ≡ directory
        (entry (b'e' ∷ []) (directory (entry (b'm' ∷ []) (file hello) no_entries)) no_entries)
create_node-failed_example = create_node-failed one_file etc_motd (file []) fails

writes : (write_file one_file etc_motd []).0 ≡ true
unfolding write_file get_node lookup same_text split_path split_from
writes = refl

write_file_lem_example :
    (read_file (write_file one_file etc_motd []).1 etc_motd ≡ some [])
    × KeepsOthers etc_motd one_file (write_file one_file etc_motd []).1
write_file_lem_example = write_file_lem one_file etc_motd [] writes

removes : (remove_file one_file etc_motd).0 ≡ true
unfolding remove_file take_out parent_and_name parts_before last_part get_node lookup same_text
    split_path split_from join_path
removes = refl

remove_file_lem_example :
    (read_file (remove_file one_file etc_motd).1 etc_motd ≡ none)
    × KeepsOthers etc_motd one_file (remove_file one_file etc_motd).1
remove_file_lem_example =
    remove_file_lem one_file etc_motd (unfold split_path split_from in refl) removes

split_path-join_path_example : split_path (join_path (hello ∷ [])) ≡ hello ∷ []
split_path-join_path_example = split_path-join_path (hello ∷ []) ((refl, (refl, (refl, tt))), tt)

-- `create_file("//")` reports a file that no path leads to.
nameless : (create_file new (b'/' ∷ b'/' ∷ []) hello).0 ≡ true
unfolding create_file create_node new ensure_dirs add_node make_dirs dir_at parent_and_name
    parts_before last_part get_node set_node lookup put same_text split_path split_from join_path
    register insert_inode
nameless = refl

lost : read_file (create_file new (b'/' ∷ b'/' ∷ []) hello).1 (b'/' ∷ b'/' ∷ []) ≡ none
unfolding read_file create_file create_node new ensure_dirs add_node make_dirs dir_at
    parent_and_name parts_before last_part get_node set_node lookup put same_text split_path
    split_from join_path register insert_inode
lost = refl

-- A write behind the end of the file fills the gap with zeros.
write_at-read_at_example :
    ((write_at one_file 3 4 hello).0 ≡ 2) × (read_at (write_at one_file 3 4 hello).1 3 4 2 ≡ hello)
write_at-read_at_example =
    write_at-read_at one_file 3 4 hello etc_motd hello (unfold path_for_inode find_inode in refl)
      (unfold get_node lookup same_text split_path split_from in refl) (omega arith)

abbrev moved : RamFs
moved = record {
  root =
      directory
        (entry (b'e' ∷ []) (directory no_entries) (entry (b'h' ∷ []) (file hello) no_entries));
  inodes = record {
    counter = 4;
    paths = (1, slash ∷ []) ∷ (2, (b'/' ∷ b'e' ∷ []) ∷ []) ∷ (3, home ∷ []) ∷ [];
  };
}

renames : rename one_file etc_motd home ≡ some (true, moved)
unfolding rename detach attach rename_paths last_update set_first suffix starts_character
    parent_and_name parts_before last_part get_node set_node lookup put without same_text split_path
    split_from join_path trim_end starts_with
renames = refl

rename_lem_example :
    get_node moved.root (split_path home ++ []) ≡ get_node one_file.root (split_path etc_motd ++ [])
rename_lem_example = rename_lem one_file moved etc_motd home [] renames

-- A directory renamed to a path inside itself is lost, and the answer is no success.
inside_itself :
    rename one_file (b'/' ∷ b'e' ∷ []) (b'/' ∷ b'e' ∷ b'/' ∷ b'n' ∷ [])
    ≡ some (false, record one_file { root = directory no_entries })
unfolding rename detach attach parent_and_name parts_before last_part get_node set_node lookup put
    without same_text split_path split_from join_path
inside_itself = refl
