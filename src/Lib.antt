-- ===== src/Lib.antt =====
-- A verification library for the wafer fabrication scheduling system, a Next.js application that
-- takes wafer orders, schedules them onto the daily capacities of factories, and lets people edit
-- the schedule. What is modelled is the logic under modules/, infra/ and lib/.
--
-- Base holds the shared names: tests on numbers, list methods, signed integers (Base.Int) and the
-- stable sort of Array.sort (Base.Sort). Dates is lib/date-utils.ts and
-- modules/schedule/validation-utils.ts.
--
-- Schedule is modules/schedule. Schedule.Types has the data of strategy.ts, config.ts and the
-- enumerations of prisma/schema.prisma. Schedule.CapacityMap is the map of capacity drafts.
-- Schedule.OrderQueue separates the immutable orders and sorts the others. Schedule.Attempt is
-- one order's attempt with its rollback ledger; Schedule.Split and Schedule.Block are its two
-- branches, splittable and not. Schedule.Strategy puts them together as
-- greedyBestFitStrategy.execute, and Schedule.Total is computeTotalAvailableCapacity.
-- Schedule.Steps describes an attempt as a step relation, on which the proofs in Rollback,
-- Placement, Levels and Overdraft stand; Keyed, Supply and Completeness compare the splittable
-- branch with the total, FirstFit describes the other branch, Fuel has the termination of the
-- loops, and Whole the list of processed orders.
--
-- Store is the state that the services share: the tables of prisma/schema.prisma that they use,
-- and the keys that infra/redis/schedule-store.ts keeps, with actions that change them or throw.
-- Store.Locks is withScheduleLock; Release and Exclusion under it have what it gives back and
-- whom it keeps out. Store.Capacity is infra/db/capacity-repository.ts.
--
-- Auth is modules/auth/rbac.ts and scope.ts. Orders is modules/order: Orders.Status has
-- order-status.ts and order-validation.ts, Orders.Table the queries of
-- infra/db/order-repository.ts, Orders.Cancel cancelOrdersAndReleaseCapacity, and Orders.Service
-- the rest of order-service.ts, with Delete for deletions and Access for who may do what. A
-- service call takes the user, as the context of the request, and its actions are composed as the
-- source awaits them.
--
-- Execution is the passing of the days: infra/db/daily-execution-repository.ts with
-- modules/schedule/daily-execution.ts. Execution.Pointwise describes the advancement row by row,
-- Compose compares steps with jumps, Decision says what becomes of an order, and Execution.Revert
-- is the return from a simulation.
--
-- Application is modules/schedule/core.ts, run.ts and preview.ts, with the queries of infra/db
-- that they use: Prepare has the data of a run, Prepare.Reset what its reset gives back, Run the
-- composition with the strategy, Effects what is written to the tables, Versions the check of the
-- version and its increments, and Created the rows of capacity. The creation of conflict issues
-- in the same transaction writes other tables and is modelled apart, in Issues.Creation; the
-- definitions of Application are about runs in which it does not throw, as it would for an order
-- whose deadline is an Invalid Date.
--
-- Editing is modules/schedule/manual-edit-service.ts, bulk edits of the schedule: Judge has what
-- is decided on one move, Checks the passes over the moves, Execute the transaction, and Editing
-- itself applyAssignmentMoves. A YYYY-MM-DD is the number of its day. Balance, Conserve and Bulk
-- have what the transaction does to counters and assignments, Accept and Accepted what an
-- accepted move is, Nets the sums the second pass makes, Limits what that pass says of the
-- counters, Planned the orders that the moves place, Placed what is written of them, Split that
-- it is their whole quantity, Outcome and Atomic the whole call.
--
-- Issues is infra/db/conflict-issue-repository.ts and modules/order/conflict-issue-service.ts:
-- Table has the rows, Guard the access checks, Proposals comments and proposals, Admin the
-- actions on an issue and the requests to cancel an order, and Issues itself the requests that
-- the routes make. Rules has a rule for each kind of step of an action, Machine the states of an
-- issue as a machine, Discussion, Actions and Refine that each request is a move of it, Resolving
-- and Accepting what an acceptance writes, and Histories what holds after any sequence of
-- requests. The table of users is a parameter, as is the time. Suggestions is getSuggestions from
-- the snapshot of an issue on, with its horizon of 90 days as the fuel of the scan, Earliest that
-- it finds the first day, and Bounds what it says fits. Creation has the issues that a run opens
-- for the orders that it failed, Preparation what it prepares for one order, and AtMostOne that
-- an order keeps one live issue.
--
-- Automation is what time starts, and who may start a run: lib/get-time.ts,
-- modules/schedule/auto-scheduler.ts, simulation-service.ts and access-control.ts.
-- modules/order/schedule-orchestrator.ts adds mails to the functions that it calls, and has no
-- definition. Idle is about the automatic scheduler, and Manage about the check of users.
--
-- Conventions. A Date is its distance in milliseconds from the smallest JavaScript date, which is
-- a UTC midnight; an Invalid Date is none, and dates beyond the largest JavaScript date are not
-- considered. setDate adds days of 24 hours, as it does in a server time zone without daylight
-- saving. Ids are numbers: an id stands for its rank under localeCompare. Quantities and maximal
-- capacities are natural numbers, counters of capacity are integers. A loop over days runs on
-- fuel, the number of days of its window.
--
-- Not modelled: the pages and components of app and components, the routes that parse requests
-- for the services, mail, tokens, passwords, sessions and invitations, the generated Prisma
-- client, the store of previews in Redis, and the texts of errors; a text column is a number that
-- is equal for equal texts, and updatedAt of an order is read and written only where the issues
-- use it: the writes of the order service do not set it. The server's time zone is UTC. Database
-- and Redis calls of one service call run without calls of others between them, apart from the
-- locks; a lock does not expire.
pub mod Base
pub mod Dates
pub mod Schedule
pub mod Store
pub mod Auth
pub mod Orders
pub mod Execution
pub mod Application
pub mod Editing
pub mod Issues
pub mod Automation
