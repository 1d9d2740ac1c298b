-- ===== src/Http/Tests.antt =====
-- Requests and responses at concrete inputs: the file "a.html", of three bytes.
use mathlib.Core.List.{append-nil}
use ece344_operating_systems.Base.{
  ℕ, ◌≡◌, refl, List, ◌∷◌, [], ◌++◌, codes, true, false, some, none, read_digits, if◌then◌else◌,
  leb, arith, length, suc, zero, ◌≤◌,
}
use ece344_operating_systems.Http.Rio.Lines.{take_line, delivers, rio_readlineb-line}
use ece344_operating_systems.Http.Request.Files.{denied, reason}
use ece344_operating_systems.Http.Rio.Bytes.{content, is_reliable}
use ece344_operating_systems.Http.Rio.{rio_readlineb, rio_init, a_line}
use ece344_operating_systems.Base.{inl}
use ece344_operating_systems.Http.Result.{ok, stop, running, fault}
use ece344_operating_systems.Http.Rio.{got, interrupted, Rio}
use ece344_operating_systems.Http.Request.{
  Stack, Request, request_init, request_sendfile, crlf, request_read_headers, request_error, File,
  Disk, request_readfile,
}
use ece344_operating_systems.Http.Client.{client_send, client_print, get_text}
use ece344_operating_systems.Server.Cache.{FileData}
use ece344_operating_systems.Http.Request.Headers.{
  Skips, head_text, request_read_headers-Skips, request_read_headers-running,
}
use ece344_operating_systems.Http.Request.Init.{Answers, named, request_init-Answers}
use ece344_operating_systems.Http.Request.Files.{
  Loaded, returns, request_readfile-Loaded, request_readfile-confined,
}
use ece344_operating_systems.Http.RoundTrip.{request_init-client_send}
use ece344_operating_systems.Http.Request.Response.{responded, request_sendfile-response}
use ece344_operating_systems.Http.Request.Errors.{paged, request_error-page}
use ece344_operating_systems.Http.Fileset.{init_fileset, main, FileInfo, index_text}
use ece344_operating_systems.Http.Fileset.Made.{Describes, init_fileset-main}

abbrev no_stack : Stack
no_stack = record { line = []; method = []; uri = []; header = [] }

abbrev page : FileData
page = record { file_name = codes "./a.html"; file_buf = 97 ∷ 98 ∷ 10 ∷ []; file_size = 3 }

abbrev asked : Request
asked = record { file = page; sent = []; is_open = true }

abbrev get_page : List ℕ
get_page = get_text (codes "host") (codes "a.html")

abbrev parsed : Request
parsed = record {
  file = record { file_name = codes "./a.html"; file_buf = []; file_size = 0 };
  sent = [];
  is_open = true;
}

sends : client_send (codes "host") (codes "a.html") ≡ ok get_page
unfolding client_send
sends = refl

inits : request_init 3 no_stack (got get_page ∷ []) ≡ ok (parsed, true)
unfolding request_init
inits = refl

abbrev response : List ℕ
response =
    codes "HTTP/1.0 200 OK"
    ++ crlf
    ++ codes "Server: OS Web Server"
    ++ crlf
    ++ codes "Content-Type: text/html"
    ++ crlf
    ++ codes "Content-Length: 3"
    ++ crlf
    ++ codes "Content-Csum: 205"
    ++ crlf
    ++ crlf
    ++ 97 ∷ 98 ∷ 10 ∷ []

responds : request_sendfile asked ≡ ok (record asked { sent = response })
unfolding request_sendfile
responds = refl

prints : client_print 9 [] 205 3 false (got response ∷ []) ≡ ok []
unfolding client_print read_digits
prints = refl

abbrev pieces : Rio
pieces = record { unread = 97 ∷ []; input = got (98 ∷ []) ∷ interrupted ∷ got (10 ∷ 99 ∷ []) ∷ [] }

rio_readlineb-line_example :
    (rp' : Rio) × (rio_readlineb 10 pieces ≡ delivers 10 (take_line 10 (content pieces)).0 rp')
    × (content rp' ≡ (take_line 10 (content pieces)).1)
    × (is_reliable rp'.input ≡ true)
rio_readlineb-line_example = rio_readlineb-line 10 pieces refl

abbrev host_header : List ℕ
host_header = codes "host: h"

abbrev with_end : Rio
with_end = record { unread = head_text (host_header ∷ []) (13 ∷ 10 ∷ 7 ∷ []); input = [] }

abbrev without_end : Rio
without_end = record { unread = head_text (host_header ∷ []) []; input = [] }

request_read_headers-Skips_example : Skips (request_read_headers 2 [] with_end) (7 ∷ [])
request_read_headers-Skips_example =
    request_read_headers-Skips 2 (host_header ∷ []) [] (7 ∷ []) with_end refl refl refl
      (omega arith)

request_read_headers-running_example : request_read_headers 100 [] without_end ≡ stop running
request_read_headers-running_example =
    request_read_headers-running 100 host_header [] [] without_end refl refl refl

request_sendfile-response_example : request_sendfile asked ≡ (
    if leb asked.file.file_size (length asked.file.file_buf)
    then ok (responded asked)
    else stop fault)
request_sendfile-response_example = request_sendfile-response asked

request_error-page_example :
    request_error asked (codes "x") (codes "404") (codes "Not found") (codes "no")
    ≡ paged asked (codes "x") (codes "404") (codes "Not found") (codes "no")
request_error-page_example =
    request_error-page asked (codes "x") (codes "404") (codes "Not found") (codes "no")

abbrev the_file : File
the_file = record {
  is_regular = true;
  may_read = true;
  st_size = 3;
  opened = some (got (97 ∷ 98 ∷ []) ∷ got (10 ∷ []) ∷ []);
}

abbrev disk : Disk
disk name = some the_file

abbrev source : Request
source = named (codes "./a.c")

loads : returns (request_readfile (λ i. 0) disk parsed) ≡ true
unfolding request_readfile
loads = refl

request_readfile-Loaded_example :
    Loaded (codes "./a.html") disk (request_readfile (λ i. 0) disk parsed)
request_readfile-Loaded_example = request_readfile-Loaded (λ i. 0) disk parsed loads

request_readfile-confined_example :
    request_readfile (λ i. 0) disk source
    ≡ denied (
        paged source source.file.file_name
          (codes "404")
          (codes "Not found")
          (reason source.file.file_name))
request_readfile-confined_example = request_readfile-confined (λ i. 0) disk source refl

abbrev post_line : List ℕ
post_line = codes "POST /a HTTP/1.0" ++ crlf

abbrev all_read : Rio
all_read = record { unread = []; input = [] }

post-read : rio_readlineb 8192 (rio_init (got post_line ∷ [])) ≡ a_line post_line all_read
unfolding rio_readlineb rio_init
post-read = refl

request_init-Answers_example :
    Answers 3 [] (codes "POST") (codes "/a") all_read (request_init 3 no_stack (got post_line ∷ []))
request_init-Answers_example =
    request_init-Answers 3 no_stack (got post_line ∷ []) post_line all_read (inl post-read)

request_init-client_send_example :
    request_init 2 no_stack (got get_page ∷ []) ≡ ok (named (codes "./a.html"), true)
request_init-client_send_example =
    request_init-client_send 2 no_stack (codes "host") 97 (codes ".html") get_page
      (got get_page ∷ []) refl refl sends refl refl (omega arith)

abbrev bytes_of : ℕ → List ℕ
bytes_of zero = []
bytes_of (suc n) = 5 ∷ bytes_of n

abbrev draws : List (List ℕ)
draws = bytes_of 8000 ∷ bytes_of 192 ∷ bytes_of 7 ∷ []

abbrev two_files : List FileInfo
two_files =
    record { name = codes "d/00000"; csum = 296000; len = 8000 }
    ∷ record { name = codes "d/00001"; csum = 7104; len = 192 }
    ∷ []

makes : main (codes "d") 2 1 draws ≡ ok (two_files, index_text two_files)
unfolding main
makes = refl

init_fileset-main_example :
    (init_fileset 3 (record { name = []; csum = 0; len = 0 }) (got (index_text two_files) ∷ [])
      ≡ ok (2, two_files))
    × (1 ≤ 2)
    × Describes draws two_files
unfolding ece344_operating_systems.Base.decimal
init_fileset-main_example =
    init_fileset-main 3 (record { name = []; csum = 0; len = 0 }) (codes "d") 2 1 draws two_files
      (index_text two_files) (got (index_text two_files) ∷ []) refl refl makes (omega arith) refl
      (append-nil (index_text two_files)) (omega arith)
