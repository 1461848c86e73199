-- ===== src/Session/Toolbox/Scripts.antt =====
-- The texts of the scripts that `executeTool` hands to the shell of a capsule.
use krellin.Prelude.{List, [], ◌∷◌, ◌++◌}
use krellin.Prelude.Text.{Text, codes}
use krellin.Session.Prompts.{lines_text}

-- The patch program, for a capsule that has Python and no `patch`; it stands in the command twice.
unfoldable pub python_patch : List Text
python_patch =
    codes "import sys"
    ∷ codes "patch = sys.stdin.read().splitlines()"
    ∷ codes "files = []"
    ∷ codes "hunks = {}"
    ∷ codes "current = None"
    ∷ []
    ∷ codes "def parse_range(r):"
    ∷ codes "    parts = r.split(',')"
    ∷ codes "    start = int(parts[0])"
    ∷ codes "    lines = int(parts[1]) if len(parts) > 1 else 1"
    ∷ codes "    return start, lines"
    ∷ []
    ∷ codes "lines = patch"
    ∷ codes "idx = 0"
    ∷ codes "while idx < len(lines):"
    ∷ codes "    line = lines[idx]"
    ∷ codes "    if line.startswith('+++ b/'):"
    ∷ codes "        current = line[6:]"
    ∷ codes "        files.append(current)"
    ∷ codes "        if current not in hunks:"
    ∷ codes "            hunks[current] = []"
    ∷ codes "    elif line.startswith('@@'):"
    ∷ codes "        if not current:"
    ∷ codes "            raise SystemExit('hunk without file')"
    ∷ codes "        parts = line.split(' ')"
    ∷ codes "        old_range = parts[1][1:]"
    ∷ codes "        new_range = parts[2][1:]"
    ∷ codes "        old_start, old_lines = parse_range(old_range)"
    ∷ codes "        new_start, new_lines = parse_range(new_range)"
    ∷ codes
        "        h = {'old_start': old_start, 'old_lines': old_lines, 'new_start': new_start, 'new_lines': new_lines, 'lines': []}"
    ∷ codes "        idx += 1"
    ∷ codes
        "        while idx < len(lines) and not lines[idx].startswith('@@') and not lines[idx].startswith('+++ b/'):"
    ∷ codes "            h['lines'].append(lines[idx])"
    ∷ codes "            idx += 1"
    ∷ codes "        hunks[current].append(h)"
    ∷ codes "        continue"
    ∷ codes "    idx += 1"
    ∷ []
    ∷ codes "if not files:"
    ∷ codes "    raise SystemExit('no files in patch')"
    ∷ []
    ∷ codes "for file in files:"
    ∷ codes "    path = file"
    ∷ codes "    with open(path, 'r', encoding='utf-8', errors='replace') as f:"
    ∷ codes "        content = f.read().splitlines()"
    ∷ codes "    offset = 0"
    ∷ codes "    for h in hunks[file]:"
    ∷ codes "        idx = h['old_start'] - 1 + offset"
    ∷ codes "        if idx < 0 or idx > len(content):"
    ∷ codes "            raise SystemExit('hunk out of range')"
    ∷ codes "        new_lines = []"
    ∷ codes "        removed = 0"
    ∷ codes "        added = 0"
    ∷ codes "        cursor = idx"
    ∷ codes "        for l in h['lines']:"
    ∷ codes "            if l == '':"
    ∷ codes "                continue"
    ∷ codes "            prefix = l[:1]"
    ∷ codes "            text = l[1:]"
    ∷ codes "            if prefix == ' ':"
    ∷ codes "                if cursor >= len(content) or content[cursor] != text:"
    ∷ codes "                    raise SystemExit('context mismatch')"
    ∷ codes "                new_lines.append(content[cursor])"
    ∷ codes "                cursor += 1"
    ∷ codes "            elif prefix == '-':"
    ∷ codes "                if cursor >= len(content) or content[cursor] != text:"
    ∷ codes "                    raise SystemExit('delete mismatch')"
    ∷ codes "                cursor += 1"
    ∷ codes "                removed += 1"
    ∷ codes "            elif prefix == '+':"
    ∷ codes "                new_lines.append(text)"
    ∷ codes "                added += 1"
    ∷ codes "            else:"
    ∷ codes "                raise SystemExit('invalid hunk line')"
    ∷ codes "        content = content[:idx] + new_lines + content[cursor:]"
    ∷ codes "        offset += added - removed"
    ∷ codes "    with open(path, 'w', encoding='utf-8') as f:"
    ∷ codes "        f.write('\\n'.join(content) + '\\n')"
    ∷ []

-- What follows the patch in the command.
unfoldable pub patch_tail : Text
patch_tail =
    10
      ∷ codes
          ") && if command -v patch >/dev/null 2>&1; then printf \"%s\" \"$PATCH_CONTENT\" | patch -p1; elif command -v python3 >/dev/null 2>&1; then printf \"%s\" \"$PATCH_CONTENT\" | python3 - <<'PY'"
    ++ 10 ∷ lines_text python_patch
    ++ codes "PY"
    ++ 10
      ∷ codes
          "elif command -v python >/dev/null 2>&1; then printf \"%s\" \"$PATCH_CONTENT\" | python - <<'PY'"
    ++ 10 ∷ lines_text python_patch
    ++ codes "PY"
    ++ 10 ∷ codes "else echo 'patch not installed and python unavailable' >&2; exit 2; fi"

abbrev pub patch_head : Text
patch_head = codes "cd /workspace && PATCH_CONTENT=$(cat <<'"

-- The command of `write_file`, of words that are quoted.
unfoldable pub write_command : Text → Text → Text → Text → Text
write_command dir enc target content =
    codes "mkdir -p "
    ++ dir
    ++ codes " && if command -v base64 >/dev/null 2>&1; then printf "
    ++ enc
    ++ codes " | base64 -d > "
    ++ target
    ++ codes "; elif command -v python3 >/dev/null 2>&1; then B64="
    ++ enc
    ++ codes " python3 - <<'PY' > "
    ++ target
    ++ 10 ∷ codes "import os,base64,sys"
    ++ 10
      ∷ codes
          "sys.stdout.write(base64.b64decode(os.environ.get('B64','')).decode('utf-8', errors='replace'))"
    ++ 10 ∷ codes "PY"
    ++ 10 ∷ codes "elif command -v python >/dev/null 2>&1; then B64="
    ++ enc
    ++ codes " python - <<'PY' > "
    ++ target
    ++ 10 ∷ codes "import os,base64,sys"
    ++ 10
      ∷ codes
          "sys.stdout.write(base64.b64decode(os.environ.get('B64','')).decode('utf-8', errors='replace'))"
    ++ 10 ∷ codes "PY"
    ++ 10 ∷ codes "else printf "
    ++ content
    ++ codes " > "
    ++ target
    ++ codes "; fi"
