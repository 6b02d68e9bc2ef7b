-- ===== src/Store.antt =====
-- The tables of backend/migrations/000001_init_schema.up.sql that the modelled operations read and
-- write, as lists of rows, and the constraints that an INSERT of a job meets.
use codity_assignment.Base.{[], List}
use codity_assignment.Domain.Job.{Job}
use codity_assignment.Domain.Queue.{Queue}
use codity_assignment.Domain.Cron.{CronJob}
use codity_assignment.Domain.Batch.{Batch}
use codity_assignment.Domain.Worker.{Worker}
use codity_assignment.Domain.User.{User, RefreshToken}
use codity_assignment.Domain.Org
use codity_assignment.Domain.Project

pub record Db : Type 0 where
  pub jobs : List Job
  pub queues : List Queue
  pub crons : List CronJob
  pub batches : List Batch
  pub workers : List Worker
  pub users : List User
  pub refresh_tokens : List RefreshToken
  pub orgs : List Org.Organization
  pub org_members : List Org.MemberRow
  pub projects : List Project.Project
  pub project_members : List Project.MemberRow

abbrev pub empty_db : Db
empty_db = record {
  jobs = [];
  queues = [];
  crons = [];
  batches = [];
  workers = [];
  users = [];
  refresh_tokens = [];
  orgs = [];
  org_members = [];
  projects = [];
  project_members = [];
}
