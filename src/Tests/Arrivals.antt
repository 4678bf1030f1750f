-- ===== src/Tests/Arrivals.antt =====
-- A driver that has just started, a port that takes all bytes at once, and responses that arrive,
-- some of them in pieces.
use clibcdc.Base.{Bool, List, [], ap, arith, contains, inl, length, refl, ℕ, ◌∷◌, ◌≡◌}
use clibcdc.Driver.Receive.{ReadEvent, chunk}
use clibcdc.Driver.Send.{PortApi, SendEvent, wrote}
use clibcdc.Driver.State.{Driver, init, init_last_response}
use clibcdc.Driver.Thread.{AreBytes}
use clibcdc.Driver.Thread.Message.{IsLive}
use clibcdc.Parser.Machine.{new_parser}
use clibcdc.Tests.Data.{flag, no_stray}

abbrev pub wrote_bytes : SendEvent → ℕ
wrote_bytes (wrote n) = n
wrote_bytes _ = 0

abbrev pub greedy : PortApi
greedy = record {
  outcome = λ round left. wrote left;
  wrote_bounds =
      λ round left n h e. let f : left ≡ n = ap wrote_bytes e in (omega arith, omega arith);
}

abbrev pub started : Driver Bool
started = init flag no_stray

pub started-IsLive : IsLive started
unfolding init new_parser init_last_response contains
started-IsLive = (tt, refl, (omega arith, inl (refl, refl)))

pub started_empty : length started.received_bytes ≡ 0
unfolding init
started_empty = refl

abbrev pub ds_arrivals : List ReadEvent
ds_arrivals =
    chunk (b'<' ∷ b'D' ∷ b'S' ∷ []) ∷ chunk (b':' ∷ b'E' ∷ b'R' ∷ b'R' ∷ 0x0D ∷ b'<' ∷ []) ∷ []

pub ds_arrivals-AreBytes : AreBytes ds_arrivals
ds_arrivals-AreBytes = (
  (omega arith, (omega arith, (omega arith, tt))),
  (
    (omega arith, (omega arith, (omega arith, (omega arith, (omega arith, (omega arith, tt)))))),
    tt,
  ),
)

abbrev pub pe_arrivals : List ReadEvent
pe_arrivals = chunk (b'<' ∷ b'P' ∷ b'E' ∷ b':' ∷ b'O' ∷ b'K' ∷ 0x0D ∷ []) ∷ []

pub pe_arrivals-AreBytes : AreBytes pe_arrivals
pe_arrivals-AreBytes = (
  (
    omega arith,
    (omega arith, (omega arith, (omega arith, (omega arith, (omega arith, (omega arith, tt)))))),
  ),
  tt,
)

abbrev pub status_arrivals : List ReadEvent
status_arrivals = chunk (b'<' ∷ b'S' ∷ b':' ∷ []) ∷ chunk (b'A' ∷ 0x0D ∷ []) ∷ []

pub status_arrivals-AreBytes : AreBytes status_arrivals
status_arrivals-AreBytes =
    ((omega arith, (omega arith, (omega arith, tt))), ((omega arith, (omega arith, tt)), tt))

abbrev pub upload_arrivals : List ReadEvent
upload_arrivals = chunk (b'<' ∷ b'P' ∷ b'M' ∷ b':' ∷ b'E' ∷ b'R' ∷ b'R' ∷ b'3' ∷ 0x0D ∷ []) ∷ []

pub upload_arrivals-AreBytes : AreBytes upload_arrivals
upload_arrivals-AreBytes = (
  (
    omega arith,
    (
      omega arith,
      (
        omega arith,
        (
          omega arith,
          (omega arith, (omega arith, (omega arith, (omega arith, (omega arith, tt))))),
        ),
      ),
    ),
  ),
  tt,
)

abbrev pub data_arrivals : List ReadEvent
data_arrivals = chunk (b'<' ∷ b'P' ∷ b'M' ∷ b':' ∷ b'A' ∷ []) ∷ chunk (b'B' ∷ 0x0D ∷ []) ∷ []

pub data_arrivals-AreBytes : AreBytes data_arrivals
data_arrivals-AreBytes = (
  (omega arith, (omega arith, (omega arith, (omega arith, (omega arith, tt))))),
  ((omega arith, (omega arith, tt)), tt),
)

abbrev pub test_arrivals : List ReadEvent
test_arrivals = chunk (b'x' ∷ 0x0D ∷ b'<' ∷ b'O' ∷ b'K' ∷ []) ∷ chunk (0x0D ∷ []) ∷ []

pub test_arrivals-AreBytes : AreBytes test_arrivals
test_arrivals-AreBytes = (
  (omega arith, (omega arith, (omega arith, (omega arith, (omega arith, tt))))),
  ((omega arith, tt), tt),
)

abbrev pub usb_arrivals : List ReadEvent
usb_arrivals =
    chunk (
      b'<' ∷ b'I' ∷ b':' ∷ b'G' ∷ b'W' ∷ b'-' ∷ b'U' ∷ b'S' ∷ b'B' ∷ b'#' ∷ b'1' ∷ b'.' ∷ b'0'
      ∷ b'5' ∷ b'#' ∷ b'0' ∷ b'0' ∷ b'1' ∷ b'2' ∷ b'A' ∷ 0x0D ∷ [])
    ∷ []

pub usb_arrivals-AreBytes : AreBytes usb_arrivals
usb_arrivals-AreBytes = (
  (
    omega arith,
    (
      omega arith,
      (
        omega arith,
        (
          omega arith,
          (
            omega arith,
            (
              omega arith,
              (
                omega arith,
                (
                  omega arith,
                  (
                    omega arith,
                    (
                      omega arith,
                      (
                        omega arith,
                        (
                          omega arith,
                          (
                            omega arith,
                            (
                              omega arith,
                              (
                                omega arith,
                                (
                                  omega arith,
                                  (
                                    omega arith,
                                    (omega arith, (omega arith, (omega arith, (omega arith, tt)))),
                                  ),
                                ),
                              ),
                            ),
                          ),
                        ),
                      ),
                    ),
                  ),
                ),
              ),
            ),
          ),
        ),
      ),
    ),
  ),
  tt,
)

abbrev pub tr_arrivals : List ReadEvent
tr_arrivals =
    chunk (
      b'<' ∷ b'I' ∷ b'T' ∷ b':' ∷ b'A' ∷ b'B' ∷ b'C' ∷ b'D' ∷ b'E' ∷ b'F' ∷ b'G' ∷ b'H' ∷ b'I'
      ∷ b'J' ∷ b'K' ∷ b'L' ∷ b'M' ∷ b'N' ∷ b'O' ∷ b'P' ∷ 0x0D ∷ [])
    ∷ []

pub tr_arrivals-AreBytes : AreBytes tr_arrivals
tr_arrivals-AreBytes = (
  (
    omega arith,
    (
      omega arith,
      (
        omega arith,
        (
          omega arith,
          (
            omega arith,
            (
              omega arith,
              (
                omega arith,
                (
                  omega arith,
                  (
                    omega arith,
                    (
                      omega arith,
                      (
                        omega arith,
                        (
                          omega arith,
                          (
                            omega arith,
                            (
                              omega arith,
                              (
                                omega arith,
                                (
                                  omega arith,
                                  (
                                    omega arith,
                                    (omega arith, (omega arith, (omega arith, (omega arith, tt)))),
                                  ),
                                ),
                              ),
                            ),
                          ),
                        ),
                      ),
                    ),
                  ),
                ),
              ),
            ),
          ),
        ),
      ),
    ),
  ),
  tt,
)
